-- ===== src/Ipc/Names.antt =====
-- The names that objects have in the system.
use csc.Base.{
  ℕ, ◌≤◌, ◌≡◌, ◌≢◌, refl, sym, ap, ◌∙◌, true, false, Option, some, List, All, length, replicate,
  Bool-cases, inl, inr,
}
use csc.CString.{same_text}
use csc.CString.Laws.{same_text_iff, until_nul-text}
use csc.ShobjectName.{user_or_anon, label_or_none, shobj_name}
use csc.ShobjectName.Laws.{shobject_name-whole, shobj_name-nonzero, shobj_name_injective}
use csc.Ipc.{ipc_name}

-- The name of an object is the generated name, whole.
pub ipc_name-shobj_name :
    (user label : Option (List ℕ))
    → ipc_name user label ≡ shobj_name (user_or_anon user) (label_or_none label)
unfolding ipc_name
ipc_name-shobj_name user label =
    rw ((shobject_name-whole user label (replicate 32 0) true refl).1, ipc_name)
      (until_nul-text (shobj_name (user_or_anon user) (label_or_none label)) _
        (shobj_name-nonzero (user_or_anon user) (label_or_none label)))

-- A label that is not empty and that the name has room for.
pub record IsShort (a : List ℕ) : Type 0 where
  pub shown : All (λ c. c ≢ 0) a
  pub fits : length a ≤ 12
  pub kept : label_or_none (some a) ≡ a

-- Different labels of this kind name different objects.
pub names_differ :
    (user : Option (List ℕ)) (a b : List ℕ)
    → IsShort a
    → IsShort b
    → a ≢ b
    → same_text (ipc_name user (some a)) (ipc_name user (some b)) ≡ false
names_differ user a b ha hb ne =
    elim (Bool-cases (same_text (ipc_name user (some a)) (ipc_name user (some b)))) [
      | inr e ↦ e
      | inl e ↦
          let same = (same_text_iff (ipc_name user (some a)) (ipc_name user (some b))).0 e in
          let names : shobj_name (user_or_anon user) a ≡ shobj_name (user_or_anon user) b =
            ap (shobj_name (user_or_anon user)) (sym ha.kept)
            ∙ sym (ipc_name-shobj_name user (some a))
            ∙ same
            ∙ ipc_name-shobj_name user (some b)
            ∙ ap (shobj_name (user_or_anon user)) hb.kept in
          absurd (
            ne (
              shobj_name_injective (user_or_anon user) a b ha.shown ha.fits hb.shown hb.fits names))
    ]
