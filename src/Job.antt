-- ===== src/Job.antt =====
-- job.h and job.c: the job descriptor, and the functions that create, set, copy, compare and delete
-- jobs in memory; the text form is in the child Text. A `job_t*` is an `Option ℕ`: `none` is NULL.
pub mod Label
pub mod Copy
pub mod New
pub mod Deliver
pub mod Text
mod Tests
use csc.Base.{
  ℕ, zero, suc, ◌+◌, ◌-◌, Bool, true, false, not, ◌&&◌, Option, none, some, List, [], ◌∷◌, ◌++◌,
  ◌==◌, ltb, if◌then◌else◌, set, replicate,
}
use csc.Base.Int.{ℤ, pos, ==_ℤ}
use csc.CString.{codes, strnlen, strncpy, strncmp_eq, snprintf_s}

-- MAX_NAME_SIZE
abbrev pub max_name_size : ℕ
max_name_size = 32

-- PAD_STRING
abbrev pub pad_string : List ℕ
pad_string = codes "*******************************"

-- struct job
pub record Job : Type 0 where
  pub pid : ℤ
  pub id : ℕ
  pub priority : ℕ
  pub label : List ℕ

abbrev pub Ptr : Type 0
Ptr = Option ℕ

-- The memory that holds jobs. `malloc` hands out the address `next` or, where `refuse next` says
-- so, NULL; `raw` is what fresh memory holds. `live` marks what is allocated.
pub record Heap : Type 0 where
  pub cell : ℕ → Job
  pub live : ℕ → Bool
  pub next : ℕ
  pub refuse : ℕ → Bool
  pub raw : Job

abbrev pub update {ℓ} : {A : Type ℓ} → (ℕ → A) → ℕ → A → ℕ → A
update f p v q = if p == q then v else f q

abbrev pub write : Heap → ℕ → Job → Heap
write h p j = record h { cell = update h.cell p j }

unfoldable pub malloc : Heap → Ptr × Heap
malloc h = if h.refuse h.next then (none, record h { next = suc h.next }) else (
  some h.next,
  record h {
    cell = update h.cell h.next h.raw;
    live = update h.live h.next true;
    next = suc h.next;
  },
)

unfoldable pub free : Ptr → Heap → Heap
free none h = h
free (some p) h = record h { live = update h.live p false }

-- `while (len < MAX_NAME_SIZE - 1) temp[len++] = '*';` with at most `fuel` rounds
pad_loop : ℕ → List ℕ → ℕ → List ℕ
pad_loop zero temp len = temp
pad_loop (suc fuel) temp len =
    let rest = pad_loop fuel (set temp len b'*') (len + 1) in
    if ltb len (max_name_size - 1) then rest else temp

-- The label that `job_set` stores for a label that is not empty; `temp` is what the local array
-- holds before.
pub pad_label : List ℕ → List ℕ → List ℕ
pad_label temp label =
    let t = snprintf_s temp max_name_size label in
    let len = strnlen t max_name_size in
    strncpy (set (pad_loop max_name_size t len) (max_name_size - 1) 0) max_name_size

-- `!label || !label[0]`
unfoldable pub is_blank : Option (List ℕ) → Bool
is_blank none = true
is_blank (some []) = true
is_blank (some (c ∷ s)) = c == 0

-- The label field after `job_set`. The array `temp` starts with any bytes: zeros here.
unfoldable pub stored_label : Option (List ℕ) → List ℕ
stored_label none = snprintf_s (replicate max_name_size 0) max_name_size pad_string
stored_label (some label) =
    if is_blank (some label)
    then snprintf_s (replicate max_name_size 0) max_name_size pad_string
    else pad_label (replicate max_name_size 0) label

-- job_set
unfoldable pub set_job : Ptr → ℤ → ℕ → ℕ → Option (List ℕ) → Heap → Ptr × Heap
set_job none pid id priority label h = (none, h)
set_job (some p) pid id priority label h = (
  some p,
  write h p (record { pid = pid; id = id; priority = priority; label = stored_label label }),
)

-- job_new
unfoldable pub new : ℤ → ℕ → ℕ → Option (List ℕ) → Heap → Ptr × Heap
new pid id priority label h = let (p, h') = malloc h in set_job p pid id priority label h'

-- The fields that `job_copy` writes to a job other than `src`.
unfoldable pub copied : Job → Job
copied src = record src { label = strncpy src.label max_name_size }

-- `strnlen (src->label, MAX_NAME_SIZE) == MAX_NAME_SIZE - 1`
unfoldable pub has_full_label : Job → Bool
has_full_label j = strnlen j.label max_name_size == max_name_size - 1

copy_to : ℕ → Job → Ptr → Heap → Ptr × Heap
copy_to s src none h = new src.pid src.id src.priority (some src.label) h
copy_to s src (some d) h = if s == d then (some s, h) else (some d, write h d (copied src))

-- job_copy
pub copy : Ptr → Ptr → Heap → Ptr × Heap
copy none dst h = (none, h)
copy (some s) dst h = if has_full_label (h.cell s) then copy_to s (h.cell s) dst h else (none, h)

-- What `job_init` makes of a job.
abbrev pub unused : Job
unused = record { pid = pos 0; id = 0; priority = 0; label = strncpy pad_string max_name_size }

-- job_init
pub init : Ptr → Heap → Heap
init none h = h
init (some p) h = write h p unused

unfoldable pub same_fields : Job → Job → Bool
same_fields a b =
    ==_ℤ a.pid b.pid
    && (a.id == b.id && (a.priority == b.priority && strncmp_eq a.label b.label max_name_size))

-- job_is_equal
pub is_equal : Ptr → Ptr → Heap → Bool
is_equal none none h = true
is_equal none (some b) h = false
is_equal (some a) none h = false
is_equal (some a) (some b) h = if a == b then true else same_fields (h.cell a) (h.cell b)

-- job_delete
pub delete : Ptr → Heap → Heap
delete p h = free p h
