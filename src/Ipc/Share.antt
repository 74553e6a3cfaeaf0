-- ===== src/Ipc/Share.antt =====
-- How processes come to share an object.
use csc.Base.{
  ℕ, suc, ◌≡◌, ◌≢◌, ◌==◌, if◌then◌else◌, refl, sym, ap, subst, ◌∙◌, ◌||◌, true, false, Option, none,
  some, List, arith,
}
use csc.CString.{same_text}
use csc.CString.Laws.{same_text_iff}
use csc.Proc
use csc.Proc.{Proc}
use csc.Ipc.{
  Ipc, System, Grants, non_init_delay, rename, ipc_name, shm_unlink, shm_open, ftruncate, prepare,
  clear, attach, new, delete,
}

pub same_text_refl : (a : List ℕ) → same_text a a ≡ true
same_text_refl a = (same_text_iff a a).1 refl

abbrev pub AllGranted : Grants → Type 0
AllGranted g =
    (g.malloc ≡ true)
    × (g.shm_unlink ≡ true)
    × (g.shm_open ≡ true)
    × (g.ftruncate ≡ true)
    × (g.mmap ≡ true)

-- After `ipc_new` of the init process: the object `o` has the derived name and is zeroed; the
-- other objects keep what they hold.
pub record Created {ℓ} {A : Type ℓ} (zeros : A) (p : Proc) (label : Option (List ℕ)) (s : System A)
    (o : ℕ) (out : Option (Option Ipc × System A)) : Type ℓ where
  pub after : System A
  pub made : out ≡ some (some (record { proc = p; name = ipc_name s.user label; addr = o }), after)
  pub found : after.named (ipc_name s.user label) ≡ some o
  pub zeroed : after.content o ≡ zeros
  pub others : (q : ℕ) → q ≢ o → after.content q ≡ s.content q
  pub same_user : after.user ≡ s.user

-- What the init process works on once it has opened the object: a new object where the name has
-- been removed or no object had it, or the object that still has the name.
abbrev pub fresh_object {ℓ} : {A : Type ℓ} → (List ℕ → Option ℕ) → List ℕ → System A → System A
fresh_object names name s = record s {
  named = rename names name (some s.next);
  sized = λ p. if s.next == p then false else s.sized p;
  next = suc s.next;
}

module _ {ℓ} {A : Type ℓ} (zeros : A) where
  -- The object `o` of the name gets its size, or has one.
  pub attach-Created :
      (p : Proc) (label : Option (List ℕ)) (g : Grants) (s u : System A) (o : ℕ)
      → p.is_init ≡ true
      → g.mmap ≡ true
      → (g.ftruncate || u.sized o) ≡ true
      → u.named (ipc_name s.user label) ≡ some o
      → u.content ≡ s.content
      → u.user ≡ s.user
      → Created zeros p label s o (attach zeros p (ipc_name s.user label) g (some o, u))
  unfolding attach clear ftruncate
  attach-Created p label g s u o init mapped sized named content user = record {
    after = record (ftruncate o g.ftruncate u) {
      content = λ q. if o == q then zeros else u.content q;
    };
    made = ground arith;
    found = ground arith;
    zeroed = ground arith;
    others = λ q differ. ground (arith, ap (λ f. f q) content);
    same_user = ground arith;
  }

  pub attach-killed :
      (p : Proc) (name : List ℕ) (g : Grants) (u : System A) (o : ℕ)
      → p.is_init ≡ true
      → g.mmap ≡ true
      → (g.ftruncate || u.sized o) ≡ false
      → attach zeros p name g (some o, u) ≡ none
  unfolding attach clear ftruncate
  attach-killed p name g u o init mapped sized = ground arith

  -- Where the name is removed, or no object has it, the init process opens a new object.
  pub new-fresh :
      (p : Proc) (label : Option (List ℕ)) (size : ℕ) (g : Grants) (s : System A)
      (names : List ℕ → Option ℕ)
      → p.is_init ≡ true
      → size ≢ 0
      → g.malloc ≡ true
      → g.shm_open ≡ true
      → names ≡ (if g.shm_unlink then rename s.named (ipc_name s.user label) none else s.named)
      → names (ipc_name s.user label) ≡ none
      → new zeros (some p) label size g s
        ≡ attach zeros p
            (ipc_name s.user label)
            g
            (some s.next, fresh_object names (ipc_name s.user label) s)
  unfolding new shm_open prepare shm_unlink
  new-fresh p label size g s names init ne memory opens same free = ground arith

  -- Where the name stays, it opens the object that has it.
  pub new-kept :
      (p : Proc) (label : Option (List ℕ)) (size o : ℕ) (g : Grants) (s : System A)
      → p.is_init ≡ true
      → size ≢ 0
      → g.malloc ≡ true
      → g.shm_unlink ≡ false
      → g.shm_open ≡ true
      → s.named (ipc_name s.user label) ≡ some o
      → new zeros (some p) label size g s ≡ attach zeros p (ipc_name s.user label) g (some o, s)
  unfolding new shm_open prepare shm_unlink
  new-kept p label size o g s init ne memory keeps opens named = ground arith

  pub new-Created :
      (p : Proc) (label : Option (List ℕ)) (size : ℕ) (g : Grants) (s : System A)
      → p.is_init ≡ true
      → size ≢ 0
      → AllGranted g
      → Created zeros p label s s.next (new zeros (some p) label size g s)
  new-Created p label size g s init ne (memory, unlinks, opens, sizes, mapped) =
      let name = ipc_name s.user label in
      let names = rename s.named name none in
      let free : names name ≡ none = rw (same_text_refl name) refl in
      let kept : (rename names name (some s.next)) name ≡ some s.next =
        rw (same_text_refl name) refl in
      subst (Created zeros p label s s.next)
        (sym (new-fresh p label size g s names init ne memory opens (rw unlinks refl) free))
        (attach-Created p label g s (fresh_object names name s) s.next init mapped (rw sizes refl)
          kept refl refl)

  -- A later `ipc_new` of another process, for the same user and label, maps the object that has
  -- that name, and changes neither names nor contents.
  pub new-joins :
      (p : Proc) (label : Option (List ℕ)) (size o : ℕ) (g : Grants) (s : System A)
      → p.is_init ≡ false
      → size ≢ 0
      → AllGranted g
      → s.named (ipc_name s.user label) ≡ some o
      → (t : System A) × (new zeros (some p) label size g s
          ≡ some (some (record { proc = p; name = ipc_name s.user label; addr = o }), t))
        × (t.named ≡ s.named)
        × (t.content ≡ s.content)
        × (t.user ≡ s.user)
  unfolding new attach shm_open prepare shm_unlink
  new-joins p label size o g s init ne granted named =
      (record s { clock = Proc.delay_ms non_init_delay s.clock }, ground arith, refl, refl, refl)

pub delete-same_user {ℓ} : {A : Type ℓ} (i : Option Ipc) (s : System A) → (delete i s).user ≡ s.user
unfolding delete shm_unlink
delete-same_user none s = refl
delete-same_user (some i) s = refl

-- Deleting frees the name, and changes no object.
pub delete-frees {ℓ} :
    {A : Type ℓ} (i : Ipc) (s : System A)
    → ((delete (some i) s).named i.name ≡ none) × ((delete (some i) s).content ≡ s.content)
unfolding delete shm_unlink
delete-frees i s = (rw (same_text_refl i.name) refl, refl)

-- Where nothing fails and the size is not 0, the init process creates a new object, and a process
-- that is not init and asks for the same label next has that very object, set to zeros.
pub shared_object {ℓ} :
    {A : Type ℓ} (zeros : A) (p q : Proc) (label : Option (List ℕ)) (size : ℕ) (g k : Grants)
    (s : System A)
    → p.is_init ≡ true
    → q.is_init ≡ false
    → size ≢ 0
    → AllGranted g
    → AllGranted k
    → (t : System A) × (t' : System A) × (new zeros (some p) label size g s
        ≡ some (some (record { proc = p; name = ipc_name s.user label; addr = s.next }), t))
      × (new zeros (some q) label size k t
          ≡ some (some (record { proc = q; name = ipc_name s.user label; addr = s.next }), t'))
      × (t'.content s.next ≡ zeros)
shared_object zeros p q label size g k s init other ne gg gk =
    let c = new-Created zeros p label size g s init ne gg in
    let t = c.after in
    let same_name : ipc_name t.user label ≡ ipc_name s.user label =
      ap (λ u. ipc_name u label) c.same_user in
    let (t', joined, names, contents, user) =
      new-joins zeros q label size s.next k t other ne gk (ap t.named same_name ∙ c.found) in
    (
      t,
      t',
      c.made,
      joined ∙ ap (λ n. some (some (record { proc = q; name = n; addr = s.next }), t')) same_name,
      ap (λ f. f s.next) contents ∙ c.zeroed,
    )
