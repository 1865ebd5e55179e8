-- ===== src/Logs/Sources/Order.antt =====
-- sources.py: the order of the plans.
use mathlib.Core.List.{Permᴰ}
use mathlib.Core.List.Permᴰ
use alteryx_server_maintenan.Prelude.{
  String, ◌≡◌, ◌<◌, refl, sym, ap, ◌∙◌, inl, inr, ◌⊎◌, true, false, ltb, map, Option, none, some,
  some_injective, Bool-cases, List, [], ◌∷◌, arith, All,
}
use alteryx_server_maintenan.Prelude.Dict.{Dict}
use alteryx_server_maintenan.State.{FileOffset}
use alteryx_server_maintenan.Logs.Tailer.{Bytes}
use alteryx_server_maintenan.Logs.Sources.{
  Match, Stat, Entry, TailPlan, add_entry, add_plan, plan_of, list_entries, str_leb, entry_leb,
  insert, sort, plans_of, discover,
}

str_leb_total : (a b : String) → str_leb a b ≡ false → str_leb b a ≡ true
unfolding str_leb
str_leb_total String.[] b h = ground arith
str_leb_total (String.◌∷◌ c a) String.[] h = refl
str_leb_total (String.◌∷◌ c a) (String.◌∷◌ d b) h = ground (arith, str_leb_total a b)

str_leb_trans : (a b c : String) → str_leb a b ≡ true → str_leb b c ≡ true → str_leb a c ≡ true
unfolding str_leb
str_leb_trans String.[] b c h k = refl
str_leb_trans (String.◌∷◌ x a) String.[] c h k = ground arith
str_leb_trans (String.◌∷◌ x a) (String.◌∷◌ y b) String.[] h k = ground arith
str_leb_trans (String.◌∷◌ x a) (String.◌∷◌ y b) (String.◌∷◌ z c) h k =
    ground (arith, str_leb_trans a b c)

entry_leb_total : (a b : Entry) → entry_leb a b ≡ false → entry_leb b a ≡ true
unfolding entry_leb
entry_leb_total a b h = ground (arith, str_leb_total a.file.path b.file.path)

entry_leb_trans :
    (a b c : Entry) → entry_leb a b ≡ true → entry_leb b c ≡ true → entry_leb a c ≡ true
unfolding entry_leb
entry_leb_trans a b c h k = ground (arith, str_leb_trans a.file.path b.file.path c.file.path)

-- Each entry is not above any behind it.
abbrev pub IsInOrder : List Entry → Type 0
IsInOrder [] = Unit
IsInOrder (e ∷ es) = All (λ f. entry_leb e f ≡ true) es × IsInOrder es

All-trans :
    (e f : Entry) (es : List Entry)
    → entry_leb e f ≡ true
    → All (λ g. entry_leb f g ≡ true) es
    → All (λ g. entry_leb e g ≡ true) es
All-trans e f [] h a = tt
All-trans e f (g ∷ es) h (b, a) = (entry_leb_trans e f g h b, All-trans e f es h a)

All-insert :
    (e f : Entry) (es : List Entry)
    → entry_leb f e ≡ true
    → All (λ g. entry_leb f g ≡ true) es
    → All (λ g. entry_leb f g ≡ true) (insert e es)
unfolding insert
All-insert e f [] h a = (h, tt)
All-insert e f (g ∷ es) h (b, a) = elim (Bool-cases (entry_leb e g)) [
  | inl c ↦ rw c (h, (b, a))
  | inr c ↦ rw c (b, All-insert e f es h a)
]

insert-IsInOrder : (e : Entry) (es : List Entry) → IsInOrder es → IsInOrder (insert e es)
unfolding insert
insert-IsInOrder e [] h = (tt, tt)
insert-IsInOrder e (f ∷ es) (a, s) = elim (Bool-cases (entry_leb e f)) [
  | inl c ↦ rw c ((c, All-trans e f es c a), (a, s))
  | inr c ↦ rw c (All-insert e f es (entry_leb_total e f c) a, insert-IsInOrder e es s)
]

-- The files of the entries.
abbrev files : List Entry → List Match
files es = map (λ e. e.file) es

insert-Perm : (e : Entry) (es : List Entry) → Permᴰ (e.file ∷ files es) (files (insert e es))
unfolding insert
insert-Perm e [] = Permᴰ.refl _
insert-Perm e (f ∷ es) = elim (Bool-cases (entry_leb e f)) [
  | inl c ↦ rw c (Permᴰ.refl (e.file ∷ f.file ∷ files es))
  | inr c ↦ rw c (Permᴰ.trans (Permᴰ.swap refl refl) (Permᴰ.cons refl (insert-Perm e es)))
]

sort-Perm : (es : List Entry) → Permᴰ (files es) (files (sort es))
unfolding sort
sort-Perm [] = Permᴰ.nil
sort-Perm (e ∷ es) = Permᴰ.trans (Permᴰ.cons refl (sort-Perm es)) (insert-Perm e (sort es))

sort-IsInOrder : (es : List Entry) → IsInOrder (sort es)
unfolding sort
sort-IsInOrder [] = tt
sort-IsInOrder (e ∷ es) = insert-IsInOrder e (sort es) (sort-IsInOrder es)

-- A file that `stat` reaches and that is regular.
pub record IsRegular (m : Match) : Type 0 where
  pub st : Stat
  pub reached : m.stat ≡ some st
  pub regular : st.is_regular ≡ true

-- The regular files of a list, in its order.
pub data Regulars : List Match → List Match → Type 0 where
  end : Regulars [] []
  kept :
      {m : Match} {ms rs : List Match} → IsRegular m → Regulars ms rs → Regulars (m ∷ ms) (m ∷ rs)
  left_out :
      {m : Match} {ms rs : List Match} → ¬ IsRegular m → Regulars ms rs → Regulars (m ∷ ms) rs

-- Modified earlier, or at the same time and with a path that is not behind.
abbrev pub IsBefore : Match → Match → Type 0
IsBefore m n =
    (s t : Stat)
    → m.stat ≡ some s
    → n.stat ≡ some t
    → (s.mtime < t.mtime) ⊎ ((s.mtime ≡ t.mtime) × (str_leb m.path n.path ≡ true))

-- Each file is before all behind it.
abbrev pub IsSorted : List Match → Type 0
IsSorted [] = Unit
IsSorted (m ∷ ms) = All (IsBefore m) ms × IsSorted ms

-- The plans of the files that get one, in their order.
pub data Plans (hexdigest : Bytes → String) (state_offsets : Dict String FileOffset)
    : List Match → List TailPlan → Type 0 where
  done : Plans hexdigest state_offsets [] []
  planned :
      {m : Match} {ms : List Match} {plan : TailPlan} {plans : List TailPlan}
      → plan_of hexdigest state_offsets m ≡ some plan
      → Plans hexdigest state_offsets ms plans
      → Plans hexdigest state_offsets (m ∷ ms) (plan ∷ plans)
  skipped :
      {m : Match} {ms : List Match} {plans : List TailPlan}
      → plan_of hexdigest state_offsets m ≡ none
      → Plans hexdigest state_offsets ms plans
      → Plans hexdigest state_offsets (m ∷ ms) plans

-- An entry has the time that `stat` gave for its file.
record IsEntry (e : Entry) : Type 0 where
  st : Stat
  reached : e.file.stat ≡ some st
  timed : e.mtime ≡ st.mtime

list_entries-Regulars :
    (ms : List Match) → Regulars ms (files (list_entries ms)) × All IsEntry (list_entries ms)
unfolding list_entries
list_entries-Regulars [] = (end, tt)
list_entries-Regulars (m ∷ ms) = at_stat (list_entries ms) m.stat refl (list_entries-Regulars ms)
  where
    at_stat :
        (es : List Entry) (o : Option Stat)
        → m.stat ≡ o
        → Regulars ms (files es) × All IsEntry es
        → Regulars (m ∷ ms) (files (add_entry m o es)) × All IsEntry (add_entry m o es)
    at_stat es none h (r, a) = (left_out (λ x. let e = x.reached in cc) r, a)
    at_stat es (some st) h (r, a) = elim (Bool-cases st.is_regular) [
      | inl b ↦ rw b (
        kept (record { st = st; reached = h; regular = b }) r,
        (record { st = st; reached = h; timed = refl }, a),
      )
      | inr b ↦ rw b (
        left_out
            (λ x.
              let e = some_injective (sym h ∙ x.reached) in
              let f = ap (λ (y : Stat). y.is_regular) e in let g = x.regular in cc)
            r,
        a,
      )
    ]

All-insert-IsEntry :
    (e : Entry) (es : List Entry) → IsEntry e → All IsEntry es → All IsEntry (insert e es)
unfolding insert
All-insert-IsEntry e [] h a = (h, tt)
All-insert-IsEntry e (f ∷ es) h (b, a) = elim (Bool-cases (entry_leb e f)) [
  | inl c ↦ rw c (h, (b, a))
  | inr c ↦ rw c (b, All-insert-IsEntry e es h a)
]

All-sort-IsEntry : (es : List Entry) → All IsEntry es → All IsEntry (sort es)
unfolding sort
All-sort-IsEntry [] a = tt
All-sort-IsEntry (e ∷ es) (h, a) = All-insert-IsEntry e (sort es) h (All-sort-IsEntry es a)

entry_leb-IsBefore :
    (e f : Entry) → IsEntry e → IsEntry f → entry_leb e f ≡ true → IsBefore e.file f.file
unfolding entry_leb
entry_leb-IsBefore e f h k l s t at_s at_t =
    let e_time : e.mtime ≡ s.mtime =
      h.timed ∙ ap (λ (x : Stat). x.mtime) (some_injective (sym h.reached ∙ at_s)) in
    let f_time : f.mtime ≡ t.mtime =
      k.timed ∙ ap (λ (x : Stat). x.mtime) (some_injective (sym k.reached ∙ at_t)) in
    elim (Bool-cases (ltb e.mtime f.mtime)) [
      | inl b ↦ inl (ground arith)
      | inr b ↦ inr (ground arith, ground arith)
    ]

IsInOrder-IsSorted : (es : List Entry) → IsInOrder es → All IsEntry es → IsSorted (files es)
IsInOrder-IsSorted [] s a = tt
IsInOrder-IsSorted (e ∷ es) (b, s) (h, a) = (before es b a, IsInOrder-IsSorted es s a)
  where
    before :
        (fs : List Entry)
        → All (λ f. entry_leb e f ≡ true) fs
        → All IsEntry fs
        → All (IsBefore e.file) (files fs)
    before [] b a = tt
    before (f ∷ fs) (b, bs) (k, a) = (entry_leb-IsBefore e f h k b, before fs bs a)

plans_of-Plans :
    (hexdigest : Bytes → String) (state_offsets : Dict String FileOffset) (es : List Entry)
    → Plans hexdigest state_offsets (files es) (plans_of hexdigest state_offsets es)
unfolding plans_of
plans_of-Plans hexdigest state_offsets [] = done
plans_of-Plans hexdigest state_offsets (e ∷ es) =
    go (plan_of hexdigest state_offsets e.file) refl (plans_of-Plans hexdigest state_offsets es)
  where
    go :
        {plans : List TailPlan} (o : Option TailPlan)
        → plan_of hexdigest state_offsets e.file ≡ o
        → Plans hexdigest state_offsets (files es) plans
        → Plans hexdigest state_offsets
            (e.file ∷ files es)
            (add_plan hexdigest state_offsets o plans)
    go none h p = skipped h p
    go (some plan) h p = planned h p

-- The plans of a poll are those of the regular files that the glob matched and `stat` reached, each
-- once, in the order of their time of modification and then of their path; a file that gets no plan is
-- left out.
pub discover-IsSorted :
    (hexdigest : Bytes → String) (state_offsets : Dict String FileOffset) (matches : List Match)
    → (regular sorted : List Match) × Regulars matches regular
      × Permᴰ regular sorted
      × IsSorted sorted
      × Plans hexdigest state_offsets sorted (discover hexdigest state_offsets matches)
unfolding discover
discover-IsSorted hexdigest state_offsets matches =
    let (r, a) = list_entries-Regulars matches in
    let es : List Entry = sort (list_entries matches) in
    (
      files (list_entries matches),
      files es,
      r,
      sort-Perm (list_entries matches),
      IsInOrder-IsSorted es (sort-IsInOrder (list_entries matches))
          (All-sort-IsEntry (list_entries matches) a),
      plans_of-Plans hexdigest state_offsets es,
    )
