-- ===== src/ShobjectName.antt =====
-- shobject_name.h and shobject_name.c: the names of shared objects.
pub mod Laws
pub mod Named
mod Tests
use csc.Base.{ℕ, Bool, true, false, Option, none, some, List, [], ◌∷◌, ◌++◌, if◌then◌else◌}
use csc.CString.{codes, snprintf_s, printed}
use csc.Job.{max_name_size, is_blank}

-- `label && label[0] ? label : "none"`
unfoldable pub label_or_none : Option (List ℕ) → List ℕ
label_or_none none = codes "none"
label_or_none (some s) = if is_blank (some s) then codes "none" else s

-- The value of the environment variable USER, or "anon".
unfoldable pub user_or_anon : Option (List ℕ) → List ℕ
user_or_anon none = codes "anon"
user_or_anon (some u) = u

-- SHOBJ_NAME_FMT: "/csc2035.%.9s.%.12s"
unfoldable pub shobj_name : List ℕ → List ℕ → List ℕ
shobj_name user label = codes "/csc2035." ++ (printed 9 user ++ (codes "." ++ printed 12 label))

-- What `shobject_name` returns: the buffer as it is then, or a new string; `none` is NULL. With a
-- NULL buffer `asprintf` fails unless `granted`.
unfoldable pub shobject_name :
    Option (List ℕ) → Option (List ℕ) → Option (List ℕ) → Bool → Option (List ℕ)
shobject_name user label (some buf) granted =
    some (snprintf_s buf max_name_size (shobj_name (user_or_anon user) (label_or_none label)))
shobject_name user label none granted =
    if granted
    then some (shobj_name (user_or_anon user) (label_or_none label) ++ (0 ∷ []))
    else none
