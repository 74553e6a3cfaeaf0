-- ===== src/Proc/Life.antt =====
-- proc_new and proc_delete: descriptors in allocated memory.
use csc.Base.{ℕ, ◌≡◌, ◌≢◌, ◌⊎◌, true, Option, none, some, List}
use csc.Base.Int.{ℤ}
use csc.Base.Memory.{Memory, put, alloc, release}
use csc.Proc.{Proc, Settings, new}
use csc.Proc.New.{IsRequest, Describes}

unfoldable pub fill : Proc → Option ℕ × Memory Proc → Option ℕ × Memory Proc
fill d (none, m) = (none, m)
fill d (some p, m) = (some p, put p d m)

-- Memory is asked for only where the arguments are accepted.
unfoldable pub fill_new : Option Proc → Memory Proc → Option ℕ × Memory Proc
fill_new none m = (none, m)
fill_new (some d) m = fill d (alloc m)

-- proc_new
unfoldable pub allocate : ℤ → Option (List ℕ) → Settings → Memory Proc → Option ℕ × Memory Proc
allocate type name s m = fill_new (new type name s true) m

-- proc_delete
unfoldable pub delete : Option ℕ → Memory Proc → Memory Proc
delete proc m = release proc m

-- What `proc_new` gives: for arguments out of range NULL, and no memory is asked for; for others
-- NULL if there is no memory, or a descriptor of the arguments in new memory. Deleting it leaves in
-- use what was in use before.
abbrev pub Allocates :
    ℤ → Option (List ℕ) → Settings → Memory Proc → Option ℕ × Memory Proc → Type 0
Allocates type name s m (r, m') =
    ((¬ (IsRequest type s.jobs)) × (r ≡ none) × (m' ≡ m))
    ⊎ (IsRequest type s.jobs
        × (m.refuse m.next ≡ true)
        × (r ≡ none)
        × ((p : ℕ) → m'.live p ≡ m.live p)
        × ((p : ℕ) → m'.content p ≡ m.content p))
    ⊎ (IsRequest type s.jobs
        × (r ≡ some m.next)
        × (m'.live m.next ≡ true)
        × Describes (m'.content m.next) type name s
        × ((p : ℕ) → p ≢ m.next → m'.content p ≡ m.content p)
        × ((p : ℕ) → (delete r m').live p ≡ m.live p))
