-- ===== src/Proc/New.antt =====
-- When `proc_new` makes a descriptor, and what stands in it.
use csc.Base.{
  ℕ, zero, suc, ◌≡◌, ◌⊎◌, inl, inr, refl, Bool, true, false, Option, none, some, List, ◌∷◌, ◌++◌,
  length, arith, Bool-cases, ◌≤◌, ◌<◌, drop, replicate,
}
use csc.Base.Int.{ℤ, pos, negsuc}
use csc.CString.{printed}
use csc.CString.Laws.{snprintf_s-printed}
use csc.Proc.{
  ProcType, Proc, Settings, proctype_of, proctype_label, no_jobs, proc_name, name_field, filled,
  new,
}

-- A name field holds the first 31 bytes of the name and the terminator.
name_field-printed :
    (s : List ℕ)
    → name_field s ≡ printed 31 s ++ (0 ∷ drop (suc (length (printed 31 s))) (replicate 32 0))
unfolding name_field
name_field-printed s = snprintf_s-printed 31 (replicate 32 0) s refl

abbrev pub IsBetween : ℕ → ℤ → ℕ → Type 0
IsBetween a (pos n) b = (a ≤ n) × (n < b)
IsBetween a (negsuc n) b = ⊥

abbrev pub IsPositive : ℤ → Type 0
IsPositive (pos n) = 1 ≤ n
IsPositive (negsuc n) = ⊥

-- The documented range of the arguments: one of the four types, and at least one job.
abbrev pub IsRequest : ℤ → ℤ → Type 0
IsRequest type jobs = IsBetween 0 type 4 × IsPositive jobs

proctype_of-cases :
    (type : ℤ)
    → ((t : ProcType) × (proctype_of type ≡ some t) × IsBetween 0 type 4)
      ⊎ ((proctype_of type ≡ none) × ¬ (IsBetween 0 type 4))
unfolding proctype_of
proctype_of-cases (pos zero) = inl (ProcType.bwait_cons_proc, refl, omega arith)
proctype_of-cases (pos (suc zero)) = inl (ProcType.bwait_prod_proc, refl, omega arith)
proctype_of-cases (pos (suc (suc zero))) = inl (ProcType.sem_cons_proc, refl, omega arith)
proctype_of-cases (pos (suc (suc (suc zero)))) = inl (ProcType.sem_prod_proc, refl, omega arith)
proctype_of-cases (pos (suc (suc (suc (suc n))))) = inr (refl, λ h. absurd (omega arith))
proctype_of-cases (negsuc n) = inr (refl, λ h. h)

no_jobs-cases :
    (jobs : ℤ)
    → ((no_jobs jobs ≡ false) × IsPositive jobs) ⊎ ((no_jobs jobs ≡ true) × ¬ (IsPositive jobs))
no_jobs-cases (pos zero) = inr (refl, λ h. absurd (omega arith))
no_jobs-cases (pos (suc n)) = inl (ground arith, omega arith)
no_jobs-cases (negsuc n) = inr (refl, λ h. h)

-- A descriptor as `proc_new` documents it.
pub record Describes (p : Proc) (type : ℤ) (name : Option (List ℕ)) (s : Settings) : Type 0 where
  pub kind : proctype_of type ≡ some p.type
  pub label : p.type_label ≡ name_field (proctype_label p.type)
  pub named : p.name ≡ name_field (proc_name name)
  pub id : p.id ≡ s.id
  pub jobs : p.jobs ≡ s.jobs
  pub is_init : p.is_init ≡ s.is_init
  pub delays : (p.delay_start ≡ s.delay_start) × (p.delay_exit ≡ s.delay_exit)
  pub work : (p.crit_work ≡ s.crit_work) × (p.noncrit_work ≡ s.noncrit_work)

filled-Describes :
    (type : ℤ) (t : ProcType) (name : Option (List ℕ)) (s : Settings)
    → proctype_of type ≡ some t
    → Describes (filled t name s) type name s
unfolding filled
filled-Describes type t name s e = record {
  kind = e;
  label = refl;
  named = refl;
  id = refl;
  jobs = refl;
  is_init = refl;
  delays = (refl, refl);
  work = (refl, refl);
}

-- `proc_new` makes a descriptor of its arguments exactly when the type is one of the four, there
-- is at least one job to do, and there is memory; otherwise it returns NULL.
pub new-Describes :
    (type : ℤ) (name : Option (List ℕ)) (s : Settings) (granted : Bool)
    → ((p : Proc) × (new type name s granted ≡ some p)
        × Describes p type name s
        × IsRequest type s.jobs
        × (granted ≡ true))
      ⊎ ((new type name s granted ≡ none) × (¬ (IsRequest type s.jobs) ⊎ (granted ≡ false)))
unfolding new
new-Describes type name s granted = elim (proctype_of-cases type) [
  | inr (e, bad) ↦ inr (ground arith, inl (λ r. bad r.0))
  | inl (t, e, kind) ↦ elim (no_jobs-cases s.jobs) [
    | inr (f, bad) ↦ inr (ground arith, inl (λ r. bad r.1))
    | inl (f, positive) ↦ elim (Bool-cases granted) [
      | inr g ↦ inr (ground arith, inr g)
      | inl g ↦
          inl (filled t name s, ground arith, filled-Describes type t name s e, (kind, positive), g)
    ]
  ]
]
