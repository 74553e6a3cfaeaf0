-- ===== src/ShobjectName/Tests.antt =====
-- The names of shared objects at concrete users and labels.
use csc.Base.{◌≡◌, refl, true, none, some, replicate}
use csc.CString.{codes, printed}
use csc.ShobjectName.{shobj_name}
use csc.ShobjectName.Named.{Named, shobject_name-Named}

long_names_cut :
    shobj_name (codes "montgomery") (codes "ipc_jobqueue_of_all")
    ≡ codes "/csc2035.montgomer.ipc_jobqueue"
unfolding shobj_name printed
long_names_cut = refl

shobject_name-Named_example : Named none (some (codes "sjq.mutex")) (replicate 32 1) true
shobject_name-Named_example =
    shobject_name-Named none (some (codes "sjq.mutex")) (replicate 32 1) true refl
