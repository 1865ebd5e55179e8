-- ===== src/Logs/Tailer/Rfind.antt =====
-- `bytes.rfind(sub, 0, end)` and what it finds.
use mathlib.Core.Path.{subst}
use alteryx_server_maintenan.Prelude.{
  ℕ, zero, suc, ◌+◌, ◌-◌, ◌%◌, ◌≤◌, ◌<◌, ◌≡◌, ◌⊎◌, inl, inr, Bool, true, false, not, ◌&&◌, ◌||◌,
  Bool-cases, ltb, leb, Option, none, some, [], ◌∷◌, arith, ◌==◌, if◌then◌else◌, length, drop,
  length-drop,
}
use alteryx_server_maintenan.Logs.Tailer.Encoding.{Bytes}

starts_with : Bytes → Bytes → Bool
starts_with [] raw = true
starts_with (x ∷ sub) [] = false
starts_with (x ∷ sub) (y ∷ raw) = (x == y) && starts_with sub raw

-- `sub` stands in `raw` at position `i`.
unfoldable pub matches_at : Bytes → Bytes → ℕ → Bool
unfolding starts_with
matches_at sub raw i = starts_with sub (drop i raw)

-- The last match at a position below the bound.
rfind_below : Bytes → Bytes → ℕ → Option ℕ
rfind_below sub raw zero = none
rfind_below sub raw (suc i) =
    let rest = rfind_below sub raw i in if matches_at sub raw i then some i else rest

-- A match that ends at or before `end`; `none` is Python's -1. `sub` is not empty.
pub rfind : Bytes → Bytes → ℕ → Option ℕ
unfolding rfind_below matches_at
rfind sub raw end = rfind_below sub raw (end + 1 - length sub)

-- `while last_nl_pos != -1 and last_nl_pos % 2 != 0: last_nl_pos = raw.rfind(nl, 0, last_nl_pos)`.
align_back : ℕ → Bytes → Bytes → Option ℕ → Option ℕ
unfolding rfind
align_back zero nl raw last_nl_pos = last_nl_pos
align_back (suc fuel) nl raw none = none
align_back (suc fuel) nl raw (some p) =
    let rest = align_back fuel nl raw (rfind nl raw p) in if p % 2 == 0 then some p else rest

-- The position of the newline that ends the last complete line. The positions fall, so that as many
-- rounds as there are bytes are enough.
unfoldable pub last_newline : Bool → Bytes → Bytes → Option ℕ
unfolding align_back rfind
last_newline two_byte nl raw =
    let last_nl_pos = rfind nl raw (length raw) in
    if two_byte then align_back (length raw) nl raw last_nl_pos else last_nl_pos

-- The last position below the bound that passes a test.
abbrev pub LastBelow : (ℕ → Bool) → ℕ → Option ℕ → Type 0
LastBelow p n none = (q : ℕ) → q < n → p q ≡ false
LastBelow p n (some i) = (i < n) × (p i ≡ true) × ((q : ℕ) → i < q → q < n → p q ≡ false)

-- A position where a code unit may begin.
abbrev pub on_boundary : Bool → ℕ → Bool
on_boundary two_byte q = not two_byte || q % 2 == 0

LastBelow-suc :
    (p : ℕ → Bool) (n : ℕ) (o : Option ℕ) → p n ≡ false → LastBelow p n o → LastBelow p (suc n) o
LastBelow-suc p n none e h = λ q l. elim (last_or q l) [ inl s ↦ h q s | inr s ↦ rw s e ]
  where
    last_or : (q : ℕ) → q < suc n → (q < n) ⊎ (q ≡ n)
    last_or q l = omega arith
LastBelow-suc p n (some i) e (h, k, g) =
    (omega arith, k, λ q l m. elim (last_or q m) [ inl s ↦ g q l s | inr s ↦ rw s e ])
  where
    last_or : (q : ℕ) → q < suc n → (q < n) ⊎ (q ≡ n)
    last_or q l = omega arith

rfind_below-LastBelow :
    (sub raw : Bytes) (n : ℕ) → LastBelow (matches_at sub raw) n (rfind_below sub raw n)
unfolding rfind_below
rfind_below-LastBelow sub raw zero = λ q l. absurd (omega arith)
rfind_below-LastBelow sub raw (suc n) = elim (Bool-cases (matches_at sub raw n)) [
  | inl e ↦ rw e (omega arith, e, λ q l m. absurd (omega arith))
  | inr e ↦ rw e (LastBelow-suc (matches_at sub raw) n _ e (rfind_below-LastBelow sub raw n))
]

-- A match of a non-empty pattern lies within the string.
starts_with-length : (sub raw : Bytes) → starts_with sub raw ≡ true → length sub ≤ length raw
unfolding starts_with
starts_with-length [] raw h = omega arith
starts_with-length (x ∷ sub) [] h = ground arith
starts_with-length (x ∷ sub) (y ∷ raw) h = ground (arith, starts_with-length sub raw)

pub matches_at_fits :
    (x : ℕ) (sub raw : Bytes) (i : ℕ)
    → matches_at (x ∷ sub) raw i ≡ true
    → i + length (x ∷ sub) ≤ length raw
unfolding matches_at
matches_at_fits x sub raw i h =
    omega (arith, starts_with-length (x ∷ sub) (drop i raw) h, length-drop i raw)

-- Two UTF-16 newlines do not overlap.
newlines_apart :
    (raw : Bytes) (i : ℕ)
    → matches_at (0x0a ∷ 0x00 ∷ []) raw (suc i) ≡ true
    → matches_at (0x0a ∷ 0x00 ∷ []) raw i ≡ false
unfolding matches_at starts_with
newlines_apart [] zero h = ground arith
newlines_apart [] (suc i) h = ground arith
newlines_apart (x ∷ []) zero h = ground arith
newlines_apart (x ∷ y ∷ raw) zero h = ground arith
newlines_apart (x ∷ raw) (suc i) h = newlines_apart raw i h

module _ (raw : Bytes) where
  abbrev nl : Bytes
  nl = 0x0a ∷ 0x00 ∷ []

  abbrev on_newline : ℕ → Bool
  on_newline q = on_boundary true q && matches_at nl raw q

  -- Above the last match there is no newline on a boundary.
  no_newline_above :
      (k n p : ℕ)
      → ((q : ℕ) → p < q → q < k → matches_at nl raw q ≡ false)
      → ((q : ℕ) → k ≤ q → q < n → on_newline q ≡ false)
      → (q : ℕ) → p < q
      → q < n
      → on_newline q ≡ false
  no_newline_above k n p h g q a s = elim (Bool-cases (leb k q)) [
    | inl above ↦ g q (ground arith) s
    | inr below ↦ ground (arith, h q a)
  ]

  -- The places next to a match that is off the boundary.
  no_newline_below :
      (p q : ℕ)
      → matches_at nl raw p ≡ true
      → (p % 2 == 0) ≡ false
      → p + 1 - 2 ≤ q
      → q ≤ p
      → on_newline q ≡ false
  no_newline_below zero q h odd a b = ground arith
  no_newline_below (suc p) q h odd a b = elim (Bool-cases (q == p)) [
    | inl e ↦ ground (arith, newlines_apart raw p h)
    | inr ne ↦ ground arith
  ]

  align_back-LastBelow :
      (fuel n k : ℕ) (o : Option ℕ)
      → LastBelow (matches_at nl raw) k o
      → ((q : ℕ) → k ≤ q → q < n → on_newline q ≡ false)
      → k ≤ n
      → k ≤ fuel
      → LastBelow on_newline n (align_back fuel nl raw o)
  unfolding align_back
  align_back-LastBelow zero n k none h g l m = λ q s. g q (omega arith) s
  align_back-LastBelow zero n k (some p) h g l m = absurd (omega (arith, h.0))
  align_back-LastBelow (suc fuel) n k none h g l m = λ q s. elim (Bool-cases (leb k q)) [
    | inl above ↦ g q (ground arith) s
    | inr below ↦ ground (arith, h q)
  ]
  align_back-LastBelow (suc fuel) n k (some p) h g l m = elim (Bool-cases (p % 2 == 0)) [
    | inl even ↦ rw even (omega (arith, h.0), ground (arith, h), no_newline_above k n p h.2 g)
    | inr odd ↦ rw odd (
        align_back-LastBelow fuel n (p + 1 - 2) (rfind nl raw p)
          (unfold rfind in rfind_below-LastBelow nl raw (p + 1 - 2))
          (λ q a s. elim (Bool-cases (ltb p q)) [
            | inl above ↦ no_newline_above k n p h.2 g q (ground arith) s
            | inr below ↦ no_newline_below p q h.1 odd a (ground arith)
          ])
          (omega (arith, h.0)) (omega (arith, h.0)))
  ]

-- The byte position at which a newline of the encoding begins.
abbrev pub newline_at : Bool → Bytes → ℕ → Bool
newline_at two_byte raw q =
    on_boundary two_byte q && matches_at (if two_byte then 0x0a ∷ 0x00 ∷ [] else 0x0a ∷ []) raw q

-- `tail_file` finds the last newline of the window that stands on a code-unit boundary.
pub last_newline-LastBelow :
    (two_byte : Bool) (raw : Bytes)
    → LastBelow
        (newline_at two_byte raw)
        (length raw)
        (last_newline two_byte (if two_byte then 0x0a ∷ 0x00 ∷ [] else 0x0a ∷ []) raw)
unfolding last_newline
last_newline-LastBelow true raw =
    align_back-LastBelow raw (length raw) (length raw) (length raw + 1 - 2) _
      (rfind_below-LastBelow (0x0a ∷ 0x00 ∷ []) raw (length raw + 1 - 2))
      (λ q a s. elim (Bool-cases (matches_at (0x0a ∷ 0x00 ∷ []) raw q)) [
        | inl e ↦ absurd (omega (arith, matches_at_fits 0x0a (0x00 ∷ []) raw q e))
        | inr e ↦ ground arith
      ])
      (omega arith) (omega arith)
last_newline-LastBelow false raw =
    let e : length raw + 1 - 1 ≡ length raw = omega arith in
    subst
      (λ (n : ℕ).
        LastBelow (newline_at false raw) n (rfind_below (0x0a ∷ []) raw (length raw + 1 - 1)))
      e (rfind_below-LastBelow (0x0a ∷ []) raw (length raw + 1 - 1))
