-- ===== src/Joblog/Names.antt =====
-- new_log_name gives different processes different logs.
use csc.Base.{ℕ, ◌≡◌, refl, sym, ap, ◌∙◌, true, some, List, ◌++◌, arith, drop, get_or}
use csc.Base.Int.{ℤ}
use csc.CString.{codes, printed, snprintf_s}
use csc.CString.Format.{print_signed}
use csc.CString.Scan.{scan_signed}
use csc.CString.Decimals.{IntFits, scan_signed-print_signed}
use csc.Proc.{
  Proc, ProcType, bwait_cons_proc, bwait_prod_proc, sem_cons_proc, sem_prod_proc, proctype_label,
  name_field,
}
use csc.Joblog.{log_name, new_log_name}
use mathlib.Core.Option.{some-injective}

-- A descriptor with the label of its type, as proc_new makes it, and an id of at most 7 characters.
pub record IsNamed (p : Proc) : Type 0 where
  pub label : p.type_label ≡ name_field (proctype_label p.type)
  pub id_fits : IntFits 7 p.id

printed-name_field : (t : ProcType) → printed 31 (name_field (proctype_label t)) ≡ proctype_label t
unfolding printed name_field snprintf_s proctype_label
printed-name_field bwait_cons_proc = refl
printed-name_field bwait_prod_proc = refl
printed-name_field sem_cons_proc = refl
printed-name_field sem_prod_proc = refl

-- The character at a place.
abbrev char : ℕ → List ℕ → ℕ
char i s = get_or s i 0

labels-injective :
    (t u : ProcType) (x y : List ℕ)
    → proctype_label t ++ x ≡ proctype_label u ++ y
    → (t ≡ u) × (x ≡ y)
unfolding proctype_label
labels-injective bwait_cons_proc bwait_cons_proc x y e = (refl, ap (drop 10) e)
labels-injective bwait_cons_proc bwait_prod_proc x y e = absurd (omega (arith, ap (char 6) e))
labels-injective bwait_cons_proc sem_cons_proc x y e = absurd (omega (arith, ap (char 0) e))
labels-injective bwait_cons_proc sem_prod_proc x y e = absurd (omega (arith, ap (char 0) e))
labels-injective bwait_prod_proc bwait_cons_proc x y e = absurd (omega (arith, ap (char 6) e))
labels-injective bwait_prod_proc bwait_prod_proc x y e = (refl, ap (drop 10) e)
labels-injective bwait_prod_proc sem_cons_proc x y e = absurd (omega (arith, ap (char 0) e))
labels-injective bwait_prod_proc sem_prod_proc x y e = absurd (omega (arith, ap (char 0) e))
labels-injective sem_cons_proc bwait_cons_proc x y e = absurd (omega (arith, ap (char 0) e))
labels-injective sem_cons_proc bwait_prod_proc x y e = absurd (omega (arith, ap (char 0) e))
labels-injective sem_cons_proc sem_cons_proc x y e = (refl, ap (drop 8) e)
labels-injective sem_cons_proc sem_prod_proc x y e = absurd (omega (arith, ap (char 4) e))
labels-injective sem_prod_proc bwait_cons_proc x y e = absurd (omega (arith, ap (char 0) e))
labels-injective sem_prod_proc bwait_prod_proc x y e = absurd (omega (arith, ap (char 0) e))
labels-injective sem_prod_proc sem_cons_proc x y e = absurd (omega (arith, ap (char 4) e))
labels-injective sem_prod_proc sem_prod_proc x y e = (refl, ap (drop 8) e)

print_signed-injective :
    (a b : ℤ) (out : List ℕ)
    → IntFits 7 a
    → IntFits 7 b
    → print_signed 7 a out ≡ print_signed 7 b out
    → a ≡ b
print_signed-injective a b out ha hb e =
    let read =
      sym (scan_signed-print_signed 5 a out ha)
      ∙ ap (scan_signed 7) e
      ∙ scan_signed-print_signed 5 b out hb in
    ap (λ (p : ℤ × List ℕ). p.0) (some-injective _ _ read)

-- What is behind the slash.
abbrev file_part : Proc → List ℕ
file_part p = proctype_label p.type ++ print_signed 7 p.id (codes ".txt")

log_name-parts : (p : Proc) → IsNamed p → log_name p ≡ codes "./out/" ++ file_part p
unfolding log_name
log_name-parts p h =
    ap (λ l. codes "./out/" ++ (printed 31 l ++ print_signed 7 p.id (codes ".txt"))) h.label
    ∙ ap (λ l. codes "./out/" ++ (l ++ print_signed 7 p.id (codes ".txt")))
        (printed-name_field p.type)

-- Two processes with the labels of their types and with ids of at most 7 characters have the same
-- file name only if they are of one type and have one id.
pub new_log_name-injective :
    (p q : Proc)
    → IsNamed p
    → IsNamed q
    → new_log_name (some p) true ≡ new_log_name (some q) true
    → (p.type ≡ q.type) × (p.id ≡ q.id)
unfolding new_log_name
new_log_name-injective p q hp hq e =
    let whole : codes "./out/" ++ file_part p ≡ codes "./out/" ++ file_part q =
      sym (log_name-parts p hp) ∙ some-injective _ _ e ∙ log_name-parts q hq in
    let parts : file_part p ≡ file_part q = cc in
    let (types, ids) = labels-injective p.type q.type _ _ parts in
    (types, print_signed-injective p.id q.id (codes ".txt") hp.id_fits hq.id_fits ids)
