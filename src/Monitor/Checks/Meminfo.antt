-- ===== src/Monitor/Checks/Meminfo.antt =====
-- What is read from /proc/meminfo as the kernel writes it.
use mathlib.Core.List.{append-nil}
use native.Mathlib.Nat.{div-add-mod, mod-lt}
use edge_sentinel.Prelude.{
  Bool, Bool-cases, List, [], ap, arith, false, if◌then◌else◌, inl, inr, ltb, refl, suc, sym, true,
  zero, ℕ, ◌%◌, ◌*◌, ◌++◌, ◌+◌, ◌-◌, ◌/◌, ◌<◌, ◌==◌, ◌||◌, ◌∙◌, ◌∷◌, ◌≡◌,
}
use edge_sentinel.Monitor.Checks.{
  Values, codes, digits_in, enter, int_from, is_digit, partition, read_line, set, strip,
}

-- The decimal digits of a number, of which the first argument allows enough.
digits_of : ℕ → ℕ → List ℕ
digits_of zero n = []
digits_of (suc f) n =
    let before = digits_of f (n / 10) in
    if ltb n 10 then (b'0' + n) ∷ [] else before ++ ((b'0' + n % 10) ∷ [])

abbrev pad : ℕ → List ℕ
pad zero = []
pad (suc k) = b' ' ∷ pad k

-- The end of a line, by whether its number counts kilobytes.
abbrev unit : Bool → List ℕ
unit true = codes " kB\n"
unit false = codes "\n"

-- "MemTotal:       16314532 kB" or "HugePages_Total:       0", with so many blanks.
unfoldable pub render : ℕ → List ℕ → ℕ → Bool → List ℕ
unfolding digits_of
render blanks key value kilobytes =
    key ++ (b':' ∷ (pad blanks ++ (digits_of (suc value) value ++ unit kilobytes)))

abbrev has_colon : List ℕ → Bool
has_colon [] = false
has_colon (c ∷ cs) = c == b':' || has_colon cs

partition_at :
    (key rest : List ℕ) → has_colon key ≡ false → partition (key ++ (b':' ∷ rest)) ≡ (key, rest)
partition_at [] rest h = refl
partition_at (c ∷ cs) rest h = elim (Bool-cases (c == b':')) [
  | inl colon ↦ let h' = (rw colon at h) in cc
  | inr other ↦ let h' = (rw other at h) in rw (other, partition_at cs rest h') refl
]

digits_in-append : (xs ys : List ℕ) → digits_in (xs ++ ys) ≡ digits_in xs ++ digits_in ys
digits_in-append [] ys = refl
digits_in-append (x ∷ xs) ys = ground (arith, digits_in-append xs ys)

digits_in-pad : (k : ℕ) → digits_in (pad k) ≡ []
digits_in-pad zero = refl
digits_in-pad (suc k) = digits_in-pad k

int_from-append : (n : ℕ) (xs ys : List ℕ) → int_from n (xs ++ ys) ≡ int_from (int_from n xs) ys
int_from-append n [] ys = refl
int_from-append n (x ∷ xs) ys = int_from-append (10 * n + (x - b'0')) xs ys

int_from-digits_of : (f n : ℕ) → n < f → int_from 0 (digits_of f n) ≡ n
unfolding digits_of
int_from-digits_of zero n h = omega (arith, h)
int_from-digits_of (suc f) n h = elim (Bool-cases (ltb n 10)) [
  | inl small ↦ rw small (omega arith)
  | inr large ↦
      let shorter : n / 10 < f = ground (arith, h, large, div-add-mod n 10) in
      let before = int_from-digits_of f (n / 10) shorter in
      rw (large, int_from-append, before) (omega (arith, div-add-mod n 10))
]

digit : (d : ℕ) → d < 10 → is_digit (b'0' + d) ≡ true
digit d h = ground (arith, h)

digits_in-digits_of : (f n : ℕ) → digits_in (digits_of f n) ≡ digits_of f n
unfolding digits_of
digits_in-digits_of zero n = refl
digits_in-digits_of (suc f) n = elim (Bool-cases (ltb n 10)) [
  | inl small ↦ rw small (ground (arith, small))
  | inr large ↦
      rw (large, digits_in-append, digits_in-digits_of f (n / 10))
        (ap (λ b. digits_of f (n / 10) ++ (if b then (b'0' + n % 10) ∷ [] else []))
          (digit (n % 10) (mod-lt n (omega arith))))
]

digits_of-cons : (f n : ℕ) → (d : ℕ) × (ds : List ℕ) × (digits_of (suc f) n ≡ d ∷ ds)
unfolding digits_of
digits_of-cons f n = elim (Bool-cases (ltb n 10)) [
  | inl small ↦ rw small (b'0' + n, [], refl)
  | inr large ↦ rw large (snoc (digits_of f (n / 10)) (b'0' + n % 10))
]
  where
    snoc : (xs : List ℕ) (x : ℕ) → (d : ℕ) × (ds : List ℕ) × (xs ++ (x ∷ []) ≡ d ∷ ds)
    snoc [] x = (x, [], refl)
    snoc (y ∷ ys) x = (y, ys ++ (x ∷ []), refl)

-- A key as the kernel writes it: no colon, and no white space at its ends.
abbrev pub IsKey : List ℕ → Type 0
IsKey key = (has_colon key ≡ false) × (strip key ≡ key)

digits_in-unit : (kilobytes : Bool) → digits_in (unit kilobytes) ≡ []
digits_in-unit true = refl
digits_in-unit false = refl

digits_in-field :
    (blanks value : ℕ) (kilobytes : Bool)
    → digits_in (pad blanks ++ (digits_of (suc value) value ++ unit kilobytes))
      ≡ digits_of (suc value) value
digits_in-field blanks value kilobytes =
    rw
      (
        digits_in-append (pad blanks) (digits_of (suc value) value ++ unit kilobytes),
        digits_in-pad blanks,
        digits_in-append (digits_of (suc value) value) (unit kilobytes),
        digits_in-digits_of (suc value) value,
        digits_in-unit kilobytes,
      )
      (append-nil (digits_of (suc value) value))

pub read_line-render :
    (blanks : ℕ) (key : List ℕ) (value : ℕ) (kilobytes : Bool) (values : Values)
    → IsKey key
    → read_line (render blanks key value kilobytes) values ≡ set key value values
unfolding read_line render
read_line-render blanks key value kilobytes values (plain, stripped) =
    let (d, ds, cons) = digits_of-cons value value in
    let read = int_from-digits_of (suc value) value (omega arith) in
    let parts =
      partition_at key (pad blanks ++ (digits_of (suc value) value ++ unit kilobytes)) plain in
    ap (λ (x : List ℕ × List ℕ). enter x.0 (digits_in x.1) values) parts
    ∙ ap (λ x. enter key x values) (digits_in-field blanks value kilobytes ∙ cons)
    ∙ ap (λ k. set k (int_from 0 (d ∷ ds)) values) stripped
    ∙ ap (λ x. set key (int_from 0 x) values) (sym cons)
    ∙ ap (λ n. set key n values) read
