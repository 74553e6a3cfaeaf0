-- ===== src/Job/Copy.antt =====
-- What `job_copy` and `job_is_equal` do on every combination of pointers.
use csc.Base.{
  ℕ, ◌≡◌, ◌≢◌, ◌↔◌, ◌⊎◌, inl, inr, refl, sym, subst, Bool-cases, ◌∙◌, true, false, none, some,
  arith,
}
use csc.Base.Int.{==_ℤ_iff}
use csc.CString.Laws.{IsFull, strncpy_self, strncpy-IsFull, strncmp_eq_iff}
use csc.Job.{
  Job, Ptr, Heap, malloc, new, set_job, copied, has_full_label, copy_to, copy, stored_label,
  same_fields, is_equal,
}
use csc.Job.Deliver.{target}
use csc.Job.Label.{padded_self, stored_label-padded}

-- A label of exactly 31 characters in its array of 32.
abbrev pub HasLabel : Job → Type 0
HasLabel j = IsFull 31 j.label

pub copied_self : (j : Job) → HasLabel j → copied j ≡ j
unfolding copied
copied_self j h = cc (strncpy_self 31 j.label h)

pub copied-HasLabel : (j : Job) → has_full_label j ≡ true → HasLabel (copied j)
unfolding copied has_full_label
copied-HasLabel j h = strncpy-IsFull 31 j.label (ground arith)

pub has_full_label_of_full : (j : Job) → HasLabel j → has_full_label j ≡ true
unfolding has_full_label
has_full_label_of_full j h = ground (arith, h.text)

pub stored_self : (j : Job) → HasLabel j → stored_label (some j.label) ≡ j.label
stored_self j h = stored_label-padded (some j.label) ∙ padded_self j.label h

-- What a successful copy of the job at `s` to `q` has done: the target equals the source, the
-- source and every address but the target are as before.
pub record Copies (s q : ℕ) (h h' : Heap) : Type 0 where
  pub same : h'.cell q ≡ h.cell s
  pub source : h'.cell s ≡ h.cell s
  pub others : (p : ℕ) → p ≢ q → h'.cell p ≡ h.cell p

copy-given :
    (s d : ℕ) (h : Heap)
    → HasLabel (h.cell s)
    → ((copy (some s) (some d) h).0 ≡ some d) × Copies s d h (copy (some s) (some d) h).1
unfolding copy copy_to
copy-given s d h full =
    ground (arith, has_full_label_of_full (h.cell s) full, copied_self (h.cell s) full)

copy-new :
    (s : ℕ) (h : Heap)
    → HasLabel (h.cell s)
    → s ≢ h.next
    → h.refuse h.next ≡ false
    → ((copy (some s) none h).0 ≡ some h.next) × Copies s h.next h (copy (some s) none h).1
unfolding copy copy_to new set_job malloc
copy-new s h full fresh granted =
    ground (arith, has_full_label_of_full (h.cell s) full, stored_self (h.cell s) full)

copy-refused :
    (s : ℕ) (h : Heap)
    → HasLabel (h.cell s)
    → h.refuse h.next ≡ true
    → ((copy (some s) none h).0 ≡ none) × ((p : ℕ) → (copy (some s) none h).1.cell p ≡ h.cell p)
unfolding copy copy_to new set_job malloc
copy-refused s h full refused = ground (arith, has_full_label_of_full (h.cell s) full)

pub same_fields_iff : (a b : Job) → HasLabel a → HasLabel b → (same_fields a b ≡ true) ↔ (a ≡ b)
unfolding same_fields
same_fields_iff a b ha hb =
    let (to, from) = strncmp_eq_iff 31 a.label b.label ha hb in
    (λ e. ground (arith, to, ==_ℤ_iff a.pid b.pid), λ e. ground (arith, from, ==_ℤ_iff a.pid b.pid))

-- `job_is_equal` of two jobs with labels of 31 characters is true exactly when all their fields
-- are equal.
pub is_equal_iff :
    (a b : ℕ) (h : Heap)
    → HasLabel (h.cell a)
    → HasLabel (h.cell b)
    → (is_equal (some a) (some b) h ≡ true) ↔ (h.cell a ≡ h.cell b)
unfolding is_equal
is_equal_iff a b h ha hb =
    let (to, from) = same_fields_iff (h.cell a) (h.cell b) ha hb in
    (λ e. ground (arith, to), λ e. ground (arith, from))

Copies-equal :
    (s q : ℕ) (h h' : Heap)
    → HasLabel (h.cell s)
    → Copies s q h h'
    → is_equal (some s) (some q) h' ≡ true
Copies-equal s q h h' full c =
    let source : HasLabel (h'.cell s) = subst HasLabel (sym c.source) full in
    let copy : HasLabel (h'.cell q) = subst HasLabel (sym c.same) full in
    (is_equal_iff s q h' source copy).1 (c.source ∙ sym c.same)

-- `job_copy` of a job with a label of 31 characters, which does not stand where new memory comes
-- from, returns the given target, or a new job where `dst` is NULL; all fields of the target are
-- then as those of the source, so that `job_is_equal` of the two is true, and no other job
-- changes. Where `dst` is NULL and there is no memory it returns NULL and every job is as before.
pub copy-Copies :
    (s : ℕ) (dst : Ptr) (h : Heap)
    → HasLabel (h.cell s)
    → s ≢ h.next
    → (((copy (some s) dst h).0 ≡ some (target dst h))
        × Copies s (target dst h) h (copy (some s) dst h).1
        × (is_equal (some s) (some (target dst h)) (copy (some s) dst h).1 ≡ true))
      ⊎ ((dst ≡ none)
          × (h.refuse h.next ≡ true)
          × ((copy (some s) dst h).0 ≡ none)
          × ((p : ℕ) → (copy (some s) dst h).1.cell p ≡ h.cell p))
copy-Copies s (some d) h full fresh =
    let (e, c) = copy-given s d h full in
    inl (e, c, Copies-equal s d h (copy (some s) (some d) h).1 full c)
copy-Copies s none h full fresh = elim (Bool-cases (h.refuse h.next)) [
  | inl refused ↦ let (e, same) = copy-refused s h full refused in inr (refl, refused, e, same)
  | inr granted ↦
      let (e, c) = copy-new s h full fresh granted in
      inl (e, c, Copies-equal s h.next h (copy (some s) none h).1 full c)
]
