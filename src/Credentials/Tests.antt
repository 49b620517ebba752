-- ===== src/Credentials/Tests.antt =====
-- The tests of kernel/syscalls/sys_cred.c.
use vimix_os.Base.{◌≡◌, refl, List, [], ◌∷◌}
use vimix_os.Credentials.{Ids, keep, eperm, do_setuid, Call, run}

abbrev user : Ids
user = record { uid = 7; euid = 8; suid = 9; gid = 40; egid = 40; sgid = 0 }

abbrev root : Ids
root = record { uid = 0; euid = 0; suid = 0; gid = 0; egid = 0; sgid = 0 }

refused : do_setuid 0 user ≡ eperm user
unfolding do_setuid
refused = refl

swapped :
    run (Call.setresuid 9 7 keep ∷ []) user
    ≡ record { uid = 9; euid = 7; suid = 9; gid = 40; egid = 40; sgid = 0 }
unfolding run
swapped = refl

abbrev some_calls : List Call
some_calls = Call.setresuid 9 7 keep ∷ Call.setuid 0 ∷ Call.setgid 0 ∷ []
