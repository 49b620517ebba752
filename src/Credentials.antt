-- ===== src/Credentials.antt =====
-- kernel/syscalls/sys_cred.c: the system calls that change the user and group ids of a process.
pub mod Privilege
mod Tests
use vimix_os.Base.{List, [], ◌∷◌, ℕ, Bool, true, false, not, ◌&&◌, ◌||◌, ◌==◌, if◌then◌else◌}

-- the ids of `struct cred`; an id is its 32-bit pattern
pub record Ids : Type 0 where
  pub uid : ℕ
  pub euid : ℕ
  pub suid : ℕ
  pub gid : ℕ
  pub egid : ℕ
  pub sgid : ℕ

-- the id -1, which stands for no change
abbrev pub keep : ℕ
keep = 0xffffffff

-- a process's ids behind a call, and whether it returned 0 or `-EPERM`
pub data Answer : Type 0 where
  success : Ids → Answer
  eperm : Ids → Answer

abbrev pub is_superuser : Ids → Bool
is_superuser c = c.euid == 0

pub do_setuid : ℕ → Ids → Answer
do_setuid uid c =
    if is_superuser c
    then success (record c { uid = uid; euid = uid; suid = uid })
    else if not (uid == c.uid) && (not (uid == c.euid) && not (uid == c.suid))
    then eperm c
    else success (record c { euid = uid })

pub do_setgid : ℕ → Ids → Answer
do_setgid gid c =
    if is_superuser c
    then success (record c { gid = gid; egid = gid; sgid = gid })
    else if not (gid == c.gid) && (not (gid == c.egid) && not (gid == c.sgid))
    then eperm c
    else success (record c { egid = gid })

-- one of the three conditions of `do_setresuid` and `do_setresgid`: a new id that is none of the old
is_foreign : ℕ → ℕ → ℕ → ℕ → Bool
is_foreign id real effective saved =
    not (id == keep) && (not (id == real) && (not (id == effective) && not (id == saved)))

-- `if (id != -1) field = id`
changed : ℕ → ℕ → ℕ
changed id old = if not (id == keep) then id else old

pub do_setresuid : ℕ → ℕ → ℕ → Ids → Answer
unfolding is_foreign changed
do_setresuid ruid euid suid c =
    if not (is_superuser c)
      && (is_foreign ruid c.uid c.euid c.suid
          || (is_foreign euid c.uid c.euid c.suid || is_foreign suid c.uid c.euid c.suid))
    then eperm c
    else success (record c {
      uid = changed ruid c.uid;
      euid = changed euid c.euid;
      suid = changed suid c.suid;
    })

pub do_setresgid : ℕ → ℕ → ℕ → Ids → Answer
unfolding is_foreign changed
do_setresgid rgid egid sgid c =
    if not (is_superuser c)
      && (is_foreign rgid c.gid c.egid c.sgid
          || (is_foreign egid c.gid c.egid c.sgid || is_foreign sgid c.gid c.egid c.sgid))
    then eperm c
    else success (record c {
      gid = changed rgid c.gid;
      egid = changed egid c.egid;
      sgid = changed sgid c.sgid;
    })

pub data Call : Type 0 where
  setuid setgid : ℕ → Call
  setresuid setresgid : ℕ → ℕ → ℕ → Call

abbrev pub ids_after : Answer → Ids
ids_after (success c) = c
ids_after (eperm c) = c

pub answer : Call → Ids → Answer
unfolding do_setuid do_setgid do_setresuid do_setresgid
answer (Call.setuid uid) c = do_setuid uid c
answer (Call.setgid gid) c = do_setgid gid c
answer (Call.setresuid ruid euid suid) c = do_setresuid ruid euid suid c
answer (Call.setresgid rgid egid sgid) c = do_setresgid rgid egid sgid c

-- the ids behind a sequence of calls
pub run : List Call → Ids → Ids
unfolding answer
run [] c = c
run (call ∷ calls) c = run calls (ids_after (answer call c))
