-- ===== src/Logs/Tailer/Lines/Laws.antt =====
-- The lines of two texts, the first of which ends in a newline, are the lines of each.
use mathlib.Core.List.{append_assoc}
use alteryx_server_maintenan.Prelude.{
  ℕ, ◌≡◌, refl, ap, ◌∙◌, true, false, ◌&&◌, List, [], ◌∷◌, ◌++◌, arith, ◌==◌, if◌then◌else◌,
  append-nil,
}
use alteryx_server_maintenan.Logs.Tailer.Encoding.{Text}
use alteryx_server_maintenan.Logs.Tailer.Lines.{
  starts_lf, replace_crlf, push_char, split_lf, strip_lines, to_lines,
}

starts_lf-append : (s t : Text) → starts_lf (s ++ 0x0a ∷ t) ≡ starts_lf (s ++ 0x0a ∷ [])
unfolding starts_lf
starts_lf-append [] t = refl
starts_lf-append (c ∷ s) t = refl

-- What `replace_crlf` makes of a text with a newline behind it.
before_lf : Text → Text
before_lf [] = []
before_lf (c ∷ s) =
    let rest = before_lf s in if c == 0x0d && starts_lf (s ++ 0x0a ∷ []) then rest else c ∷ rest

replace_crlf-append :
    (s t : Text) → replace_crlf (s ++ 0x0a ∷ t) ≡ before_lf s ++ 0x0a ∷ replace_crlf t
unfolding replace_crlf before_lf
replace_crlf-append [] t = refl
replace_crlf-append (c ∷ s) t = ground (arith, starts_lf-append s t, replace_crlf-append s t)

push_char-append :
    (c : ℕ) (p : Text) (ps qs : List Text)
    → push_char c ((p ∷ ps) ++ qs) ≡ push_char c (p ∷ ps) ++ qs
unfolding push_char
push_char-append c p ps qs = refl

pub data IsCons {ℓ} {A : Type ℓ} : List A → Type ℓ where
  is_cons : (x : A) (xs : List A) → IsCons (x ∷ xs)

push_char-IsCons : (c : ℕ) (ps : List Text) → IsCons (push_char c ps)
unfolding push_char
push_char-IsCons c [] = is_cons _ _
push_char-IsCons c (p ∷ ps) = is_cons _ _

split_lf-IsCons : (s : Text) → IsCons (split_lf s)
unfolding split_lf
split_lf-IsCons [] = is_cons _ _
split_lf-IsCons (c ∷ s) =
    elim (c == 0x0a) as (λ b. IsCons (if b then [] ∷ split_lf s else push_char c (split_lf s))) [
      | true ↦ is_cons _ _
      | false ↦ push_char-IsCons c (split_lf s)
    ]

push_char-append_cons :
    (c : ℕ) {ps : List Text} (qs : List Text)
    → IsCons ps
    → push_char c (ps ++ qs) ≡ push_char c ps ++ qs
push_char-append_cons c qs (is_cons p ps) = push_char-append c p ps qs

split_lf-append : (s t : Text) → split_lf (s ++ 0x0a ∷ t) ≡ split_lf s ++ split_lf t
unfolding split_lf
split_lf-append [] t = refl
split_lf-append (c ∷ s) t =
    ground (arith, split_lf-append s t, push_char-append_cons c (split_lf t) (split_lf-IsCons s))

strip_lines-append : (xs ys : List Text) → strip_lines (xs ++ ys) ≡ strip_lines xs ++ strip_lines ys
unfolding strip_lines
strip_lines-append [] ys = refl
strip_lines-append (x ∷ xs) ys = ground (arith, strip_lines-append xs ys)

to_lines-newline :
    (s t : Text) → to_lines (s ++ 0x0a ∷ t) ≡ strip_lines (split_lf (before_lf s)) ++ to_lines t
unfolding to_lines
to_lines-newline s t =
    ap (λ u. strip_lines (split_lf u)) (replace_crlf-append s t)
    ∙ ap strip_lines (split_lf-append (before_lf s) (replace_crlf t))
    ∙ strip_lines-append (split_lf (before_lf s)) (split_lf (replace_crlf t))

pub to_lines-nil : to_lines [] ≡ []
unfolding to_lines
to_lines-nil = refl

-- Cutting a text behind a newline cuts its lines.
pub to_lines-append :
    (s t : Text) → to_lines ((s ++ 0x0a ∷ []) ++ t) ≡ to_lines (s ++ 0x0a ∷ []) ++ to_lines t
to_lines-append s t = simp (append_assoc, to_lines-newline, to_lines-nil, append-nil)
