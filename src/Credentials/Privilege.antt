-- ===== src/Credentials/Privilege.antt =====
-- kernel/syscalls/sys_cred.c: what a process without privileges can make of its ids.
use vimix_os.Base.{ℕ, ◌≡◌, ◌≢◌, ◌⊎◌, inl, inr, refl, true, List, [], ◌∷◌, arith}
use vimix_os.Credentials.{
  Ids, is_superuser, do_setuid, do_setgid, do_setresuid, do_setresgid, Call, ids_after, answer, run,
}

-- an id is one of three
abbrev pub OneOf : ℕ → ℕ → ℕ → ℕ → Type 0
OneOf x a b c = (x ≡ a) ⊎ ((x ≡ b) ⊎ (x ≡ c))

-- every id was an id of the same kind before
pub record Within (before after : Ids) : Type 0 where
  pub uid_old : OneOf after.uid before.uid before.euid before.suid
  pub euid_old : OneOf after.euid before.uid before.euid before.suid
  pub suid_old : OneOf after.suid before.uid before.euid before.suid
  pub gid_old : OneOf after.gid before.gid before.egid before.sgid
  pub egid_old : OneOf after.egid before.gid before.egid before.sgid
  pub sgid_old : OneOf after.sgid before.gid before.egid before.sgid

setuid-Within : (uid : ℕ) (c : Ids) → c.euid ≢ 0 → Within c (ids_after (do_setuid uid c))
unfolding do_setuid
setuid-Within uid c h = ground arith

setgid-Within : (gid : ℕ) (c : Ids) → c.euid ≢ 0 → Within c (ids_after (do_setgid gid c))
unfolding do_setgid
setgid-Within gid c h = ground arith

setresuid-Within : (r e s : ℕ) (c : Ids) → c.euid ≢ 0 → Within c (ids_after (do_setresuid r e s c))
unfolding do_setresuid
setresuid-Within r e s c h = ground arith

setresgid-Within : (r e s : ℕ) (c : Ids) → c.euid ≢ 0 → Within c (ids_after (do_setresgid r e s c))
unfolding do_setresgid
setresgid-Within r e s c h = ground arith

answer-Within : (call : Call) (c : Ids) → c.euid ≢ 0 → Within c (ids_after (answer call c))
unfolding answer
answer-Within (Call.setuid uid) c h = setuid-Within uid c h
answer-Within (Call.setgid gid) c h = setgid-Within gid c h
answer-Within (Call.setresuid r e s) c h = setresuid-Within r e s c h
answer-Within (Call.setresgid r e s) c h = setresgid-Within r e s c h

OneOf-trans :
    (x a b c a' b' c' : ℕ)
    → OneOf x a b c
    → OneOf a a' b' c'
    → OneOf b a' b' c'
    → OneOf c a' b' c'
    → OneOf x a' b' c'
OneOf-trans x a b c a' b' c' h ha hb hc = elim h [
  | inl e ↦ rw e ha
  | inr (inl e) ↦ rw e hb
  | inr (inr e) ↦ rw e hc
]

Within-trans : {a b c : Ids} → Within a b → Within b c → Within a c
Within-trans {a} {b} {c} h k = record {
  uid_old = user c.uid k.uid_old;
  euid_old = user c.euid k.euid_old;
  suid_old = user c.suid k.suid_old;
  gid_old = group c.gid k.gid_old;
  egid_old = group c.egid k.egid_old;
  sgid_old = group c.sgid k.sgid_old;
}
  where
    user : (x : ℕ) → OneOf x b.uid b.euid b.suid → OneOf x a.uid a.euid a.suid
    user x old =
        OneOf-trans x b.uid b.euid b.suid a.uid a.euid a.suid old h.uid_old h.euid_old h.suid_old

    group : (x : ℕ) → OneOf x b.gid b.egid b.sgid → OneOf x a.gid a.egid a.sgid
    group x old =
        OneOf-trans x b.gid b.egid b.sgid a.gid a.egid a.sgid old h.gid_old h.egid_old h.sgid_old

-- No user id is the superuser's.
abbrev pub IsUnprivileged : Ids → Type 0
IsUnprivileged c = (c.uid ≢ 0) × ((c.euid ≢ 0) × (c.suid ≢ 0))

Within-IsUnprivileged : {a b : Ids} → IsUnprivileged a → Within a b → IsUnprivileged b
Within-IsUnprivileged u k =
    let e1 = k.uid_old in let e2 = k.euid_old in let e3 = k.suid_old in ground arith

pub run-Within :
    (calls : List Call) (c : Ids)
    → IsUnprivileged c
    → Within c (run calls c) × IsUnprivileged (run calls c)
unfolding run
run-Within [] c u = (
  record {
    uid_old = inl refl;
    euid_old = inr (inl refl);
    suid_old = inr (inr refl);
    gid_old = inl refl;
    egid_old = inr (inl refl);
    sgid_old = inr (inr refl);
  },
  u,
)
run-Within (call ∷ calls) c u =
    let step = answer-Within call c u.1.0 in
    let (rest, safe) =
      run-Within calls (ids_after (answer call c)) (Within-IsUnprivileged u step) in
    (Within-trans step rest, safe)

-- A superuser's setuid to another user is final: no later call of the process brings any user id but
-- that user's, and group ids stay among those it had.
pub setuid_drops :
    (uid : ℕ) (calls : List Call) (c : Ids)
    → is_superuser c ≡ true
    → uid ≢ 0
    → let after = run (Call.setuid uid ∷ calls) c in
      ((after.uid ≡ uid) × ((after.euid ≡ uid) × (after.suid ≡ uid)))
      × (OneOf after.gid c.gid c.egid c.sgid
          × (OneOf after.egid c.gid c.egid c.sgid × OneOf after.sgid c.gid c.egid c.sgid))
unfolding run answer do_setuid
setuid_drops uid calls c root other =
    rw (root, run)
      (let (k, u) =
          run-Within calls (record c { uid = uid; euid = uid; suid = uid })
            (other, (other, other)) in
        let a = k.uid_old in
        let b = k.euid_old in
        let d = k.suid_old in
        ((ground arith, (ground arith, ground arith)), (k.gid_old, (k.egid_old, k.sgid_old))))
