-- ===== src/SemJobqueue/Setup/Labels.antt =====
-- The three labels of sem_jobqueue.c give three names.
use csc.Base.{ℕ, ◌≡◌, ◌≢◌, refl, get_or, ap, false, Option, some, List, arith}
use csc.CString.{same_text, printed}
use csc.CString.Laws.{printed-nonzero}
use csc.Job.{is_blank}
use csc.ShobjectName.{label_or_none}
use csc.Ipc.{ipc_name}
use csc.Ipc.Names.{IsShort, names_differ}
use csc.SemJobqueue.Setup.{sem_mutex_label, sem_full_label, sem_empty_label}

mutex-IsShort : IsShort sem_mutex_label
unfolding printed label_or_none is_blank
mutex-IsShort = record {
  shown = printed-nonzero 12 sem_mutex_label;
  fits = omega arith;
  kept = refl;
}

full-IsShort : IsShort sem_full_label
unfolding printed label_or_none is_blank
full-IsShort = record { shown = printed-nonzero 12 sem_full_label; fits = omega arith; kept = refl }

empty-IsShort : IsShort sem_empty_label
unfolding printed label_or_none is_blank
empty-IsShort = record {
  shown = printed-nonzero 12 sem_empty_label;
  fits = omega arith;
  kept = refl;
}

-- Labels that differ in the byte at 4 name different semaphores.
differ :
    (user : Option (List ℕ)) (a b : List ℕ)
    → IsShort a
    → IsShort b
    → get_or a 4 0 ≢ get_or b 4 0
    → same_text (ipc_name user (some a)) (ipc_name user (some b)) ≡ false
differ user a b ha hb ne =
    names_differ user a b ha hb (λ e. ne (ap (λ (l : List ℕ). get_or l 4 0) e))

module _ (user : Option (List ℕ)) where
  pub mutex_full :
      same_text (ipc_name user (some sem_mutex_label)) (ipc_name user (some sem_full_label)) ≡ false
  mutex_full =
      differ user sem_mutex_label sem_full_label mutex-IsShort full-IsShort (λ e. omega arith)

  pub mutex_empty :
      same_text (ipc_name user (some sem_mutex_label)) (ipc_name user (some sem_empty_label))
      ≡ false
  mutex_empty =
      differ user sem_mutex_label sem_empty_label mutex-IsShort empty-IsShort (λ e. omega arith)

  pub full_empty :
      same_text (ipc_name user (some sem_full_label)) (ipc_name user (some sem_empty_label)) ≡ false
  full_empty =
      differ user sem_full_label sem_empty_label full-IsShort empty-IsShort (λ e. omega arith)

  pub full_mutex :
      same_text (ipc_name user (some sem_full_label)) (ipc_name user (some sem_mutex_label)) ≡ false
  full_mutex =
      differ user sem_full_label sem_mutex_label full-IsShort mutex-IsShort (λ e. omega arith)

  pub empty_mutex :
      same_text (ipc_name user (some sem_empty_label)) (ipc_name user (some sem_mutex_label))
      ≡ false
  empty_mutex =
      differ user sem_empty_label sem_mutex_label empty-IsShort mutex-IsShort (λ e. omega arith)

  pub empty_full :
      same_text (ipc_name user (some sem_empty_label)) (ipc_name user (some sem_full_label)) ≡ false
  empty_full =
      differ user sem_empty_label sem_full_label empty-IsShort full-IsShort (λ e. omega arith)
