-- ===== src/Monitor/Checks/Usage.antt =====
-- The memory in use by /proc/meminfo as the kernel writes it.
use native.Mathlib.Nat.{div-le_of_le-mul, mul-le-mul_right, zero-div}
use edge_sentinel.Prelude.{
  All, Bool, Bool-cases, List, Option, String, [], ap, arith, false, if◌then◌else◌, inl, inr, leb,
  none, refl, some, true, ℕ, ◌*◌, ◌-◌, ◌/◌, ◌==◌, ◌∙◌, ◌∷◌, ◌≡◌, ◌≤◌,
}
use edge_sentinel.Core.Errors.{Error}
use edge_sentinel.Core.Effects.{Action, Result, ok, pure, ◌>>=◌}
use edge_sentinel.Monitor.Checks.{
  Machine, Values, codes, except, get, is_os_error, memory_used_ratio, ratio_of, read_lines,
  same_text, set, used,
}
use edge_sentinel.Core.Effects.Laws.{bind-ok}
use edge_sentinel.Monitor.Checks.Meminfo.{IsKey, read_line-render, render}

-- A line by its blanks, its key, its number, and whether that counts kilobytes.
pub record Line : Type 0 where
  pub blanks : ℕ
  pub key : List ℕ
  pub value : ℕ
  pub kilobytes : Bool

abbrev pub written : List Line → List (List ℕ)
written [] = []
written (l ∷ ls) = render l.blanks l.key l.value l.kilobytes ∷ written ls

abbrev set_all : List Line → Values → Values
set_all [] values = values
set_all (l ∷ ls) values = set_all ls (set l.key l.value values)

abbrev mem_total : List ℕ
mem_total = codes "MemTotal"

abbrev mem_available : List ℕ
mem_available = codes "MemAvailable"

-- Another line than the two that count.
abbrev IsOther : Line → Type 0
IsOther l =
    IsKey l.key × (same_text l.key mem_total ≡ false) × (same_text l.key mem_available ≡ false)

same_text→eq : (a b : List ℕ) → same_text a b ≡ true → a ≡ b
same_text→eq [] [] h = refl
same_text→eq [] (b ∷ bs) h = cc
same_text→eq (a ∷ cs) [] h = cc
same_text→eq (a ∷ cs) (b ∷ bs) h = elim (Bool-cases (a == b)) [
  | inl same ↦
      let first : a ≡ b = ground (arith, same) in let rest = same_text→eq cs bs (rw same at h) in cc
  | inr other ↦ let h' = (rw other at h) in cc
]

get-set_other :
    (key k : List ℕ) (v : ℕ) (values : Values)
    → same_text k key ≡ false
    → get key (set k v values) ≡ get key values
get-set_other key k v [] h = rw h refl
get-set_other key k v ((j, w) ∷ rest) h = elim (Bool-cases (same_text j k)) [
  | inl same ↦
      let miss : same_text j key ≡ false = ap (λ x. same_text x key) (same_text→eq j k same) ∙ h in
      rw (same, miss) refl
  | inr other ↦ rw (other, get-set_other key k v rest h) refl
]

read_lines_lem :
    (ls : List Line) (values : Values)
    → All (λ l. IsKey l.key) ls
    → read_lines (written ls) values ≡ set_all ls values
unfolding read_lines
read_lines_lem [] values h = refl
read_lines_lem (l ∷ ls) values h =
    ap (λ v. read_lines (written ls) v)
      (read_line-render l.blanks l.key l.value l.kilobytes values h.0)
    ∙ read_lines_lem ls (set l.key l.value values) h.1

get-set_all :
    (key : List ℕ) (ls : List Line) (values : Values)
    → All (λ l. same_text l.key key ≡ false) ls
    → get key (set_all ls values) ≡ get key values
get-set_all key [] values h = refl
get-set_all key (l ∷ ls) values h =
    get-set_all key ls (set l.key l.value values) h.1 ∙ get-set_other key l.key l.value values h.0

-- The other lines, as the lemmas want them.
others-IsKey : (ls : List Line) → All IsOther ls → All (λ l. IsKey l.key) ls
others-IsKey [] h = tt
others-IsKey (l ∷ ls) h = (h.0.0, others-IsKey ls h.1)

others_total : (ls : List Line) → All IsOther ls → All (λ l. same_text l.key mem_total ≡ false) ls
others_total [] h = tt
others_total (l ∷ ls) h = (h.0.1, others_total ls h.1)

others_available :
    (ls : List Line) → All IsOther ls → All (λ l. same_text l.key mem_available ≡ false) ls
others_available [] h = tt
others_available (l ∷ ls) h = (h.0.2, others_available ls h.1)

-- A line of kilobytes.
abbrev pub amount : List ℕ → ℕ → ℕ → Line
amount key blanks value = record { blanks = blanks; key = key; value = value; kilobytes = true }

-- The lines of the kernel, in its order: those of the total, the free and the available memory, each with
-- blanks of its own and a number, and then the others.
abbrev pub meminfo : ℕ × ℕ → ℕ × ℕ → ℕ × ℕ → List Line → List Line
meminfo (b0, total) (b1, free) (b2, available) rest =
    amount mem_total b0 total
    ∷ amount (codes "MemFree") b1 free
    ∷ amount mem_available b2 available
    ∷ rest

meminfo_read :
    (b0 b1 b2 total free available : ℕ) (rest : List Line)
    → All IsOther rest
    → (get mem_total (read_lines (written (meminfo (b0, total) (b1, free) (b2, available) rest)) [])
        ≡ some total)
      × (get mem_available
            (read_lines (written (meminfo (b0, total) (b1, free) (b2, available) rest)) [])
          ≡ some available)
meminfo_read b0 b1 b2 total free available rest others =
    let all =
      read_lines_lem (meminfo (b0, total) (b1, free) (b2, available) rest) []
        ((refl, refl), ((refl, refl), ((refl, refl), others-IsKey rest others))) in
    rw all (
      get-set_all mem_total rest _ (others_total rest others),
      get-set_all mem_available rest _ (others_available rest others),
    )

except_ok :
    {W A : Type 0} (caught : Error → Bool) (m : Action W A) (default : A) (w : W) (a : A)
    → (m w).0 ≡ ok a
    → except caught m default w ≡ (ok a, (m w).1)
except_ok caught m default w a h = ground arith

module _ {W : Type 0} (machine : Machine W) (path : String) (w w' : W) where
  -- What is not available, of the total.
  abbrev in_use : ℕ → ℕ → ℕ
  in_use total available =
      if leb available total then (total - available) * machine.one / total else 0

  in_use-le-one : (total available : ℕ) → 1 ≤ total → in_use total available ≤ machine.one
  in_use-le-one total available h = elim (Bool-cases (leb available total)) [
    | inl enough ↦ rw enough (
        div-le_of_le-mul total
          (mul-le-mul_right {m = total - available} {n = total} machine.one (omega arith)))
    | inr short ↦ rw short (omega arith)
  ]

  used-in_use :
      (total available : ℕ) → 1 ≤ total → used machine.one total available ≡ in_use total available
  used-in_use total available h = elim (Bool-cases (leb available total)) [
    | inl enough ↦
        let bound = (rw enough at (in_use-le-one total available h)) in
        rw enough (ground (arith, bound))
    | inr short ↦
        let nothing : total - available ≡ 0 = ground (arith, short) in
        let zero_ : 0 * machine.one ≡ 0 = omega arith in
        rw (short, nothing, zero_, zero-div total) (ground arith)
  ]

  -- A file that is read leaves its lines to the ratio.
  reads :
      (ls : List (List ℕ))
      → machine.readlines path w ≡ (ok ls, w')
      → memory_used_ratio machine path w ≡ (ok (ratio_of machine.one (read_lines ls [])), w')
  unfolding memory_used_ratio
  reads ls h =
      let m : Action W (Option (List (List ℕ))) =
        machine.readlines path >>= (λ ls. pure (some ls)) in
      let one : m w ≡ (ok (some ls), (machine.readlines path w).1) =
        bind-ok (machine.readlines path) (λ ls. pure (some ls)) w ls
          (ap (λ (x : Result (List (List ℕ)) × W). x.0) h) in
      let two =
        except_ok is_os_error m none w (some ls)
          (ap (λ (x : Result (Option (List (List ℕ))) × W). x.0) one) in
      bind-ok (except is_os_error m none)
        (λ lines.
          pure (elim lines [ none ↦ 0 | some ls ↦ ratio_of machine.one (read_lines ls []) ]))
        w (some ls) (ap (λ (x : Result (Option (List (List ℕ))) × W). x.0) two)
      ∙ ap
          (λ (x : Result (Option (List (List ℕ))) × W).
            (ok (ratio_of machine.one (read_lines ls [])), x.1))
          (two ∙ ap (λ (x : Result (Option (List (List ℕ))) × W). (ok (some ls), x.1)) one)
      ∙ ap (λ (x : Result (List (List ℕ)) × W). (ok (ratio_of machine.one (read_lines ls [])), x.1))
          h

  -- From a /proc/meminfo that starts with the lines MemTotal, of a positive number, MemFree and
  -- MemAvailable in kilobytes, and after them has any lines of other keys, in kilobytes or without a
  -- unit, each of a number after any blanks of its own, the ratio is (total - available) / total, zero
  -- if more is available than there is, and never above one.
  pub memory_used_ratio_outcome :
      (b0 b1 b2 total free available : ℕ) (rest : List Line)
      → 1 ≤ total
      → All IsOther rest
      → machine.readlines path w
        ≡ (ok (written (meminfo (b0, total) (b1, free) (b2, available) rest)), w')
      → (memory_used_ratio machine path w ≡ (ok (in_use total available), w'))
        × (in_use total available ≤ machine.one)
  unfolding ratio_of
  memory_used_ratio_outcome b0 b1 b2 total free available rest some_ others h =
      let (first, last) = meminfo_read b0 b1 b2 total free available rest others in
      let lines = read_lines (written (meminfo (b0, total) (b1, free) (b2, available) rest)) [] in
      let positive : (total == 0) ≡ false = ground (arith, some_) in
      let ratio : ratio_of machine.one lines ≡ in_use total available =
        rw (first, positive, last, ratio_of) (used-in_use total available some_) in
      (
        reads (written (meminfo (b0, total) (b1, free) (b2, available) rest)) h
            ∙ ap (λ r. (ok r, w')) ratio,
        in_use-le-one total available some_,
      )
