-- ===== src/Permission/OpenFlags.antt =====
-- kernel/kernel/permission.c: the flags of an open file against the rights its user has, as the
-- kernel's open composes `perm_mask_from_open_flags`, `check_dentry_permission` and, on each later
-- use, `check_file_permission`.
use vimix_os.Base.{
  ℕ, ◌≡◌, ◌≢◌, Bool, true, false, not, ◌&&◌, ◌||◌, some, arith, ◌==◌, if◌then◌else◌, ◌∙◌, sym,
}
use vimix_os.Permission.{
  has, with_flag, o_wronly, o_rdwr, o_creat, o_append, o_exec, may_read, may_write, may_append,
  may_exec, may_unlink, Cred, Inode, success, fail, eacces, check_dentry_permission,
  check_file_permission, perm_mask_from_open_flags,
}
use vimix_os.Permission.Classes.{
  grants, admits, outcome, dentry_outcome, check_dentry_permission-outcome,
}

-- the mask as a function of the single tests
mask_of : Bool → Bool → Bool → Bool → Bool → Bool → ℕ
mask_of z w c r a x =
    let m1 = if z then with_flag 0 may_read else 0 in
    let m2 = if w then with_flag m1 may_write else m1 in
    let m3 = if c then with_flag m2 may_write else m2 in
    let m4 = if r then with_flag (with_flag m3 may_read) may_write else m3 in
    let m5 = if a then with_flag m4 may_append else m4 in if x then with_flag m5 may_exec else m5

bits :
    (z w c r a x : Bool)
    → (has (mask_of z w c r a x) may_read ≡ (z || r))
      × ((has (mask_of z w c r a x) may_write ≡ (w || (c || r)))
          × ((has (mask_of z w c r a x) may_append ≡ a)
              × ((has (mask_of z w c r a x) may_exec ≡ x)
                  × (has (mask_of z w c r a x) may_unlink ≡ false))))
unfolding mask_of
bits z w c r a x = ground arith

mask_bits :
    (flags : ℕ)
    → (has (perm_mask_from_open_flags flags) may_read ≡ (flags == 0 || has flags o_rdwr))
      × ((has (perm_mask_from_open_flags flags) may_write
            ≡ (has flags o_wronly || (has flags o_creat || has flags o_rdwr)))
          × ((has (perm_mask_from_open_flags flags) may_append ≡ has flags o_append)
              × ((has (perm_mask_from_open_flags flags) may_exec ≡ has flags o_exec)
                  × (has (perm_mask_from_open_flags flags) may_unlink ≡ false))))
unfolding perm_mask_from_open_flags mask_of
mask_bits flags =
    bits (flags == 0) (has flags o_wronly) (has flags o_creat) (has flags o_rdwr)
      (has flags o_append) (has flags o_exec)

opened_lem :
    (cred : Cred) (ip : Inode) (flags : ℕ)
    → check_dentry_permission cred (some ip) (perm_mask_from_open_flags flags) ≡ (
        if (not (flags == 0 || has flags o_rdwr) || (cred.euid == 0 || grants cred ip 4))
          && ((not (
                  has flags o_wronly
                  || (has flags o_creat || has flags o_rdwr)
                  || has flags o_append)
                || (cred.euid == 0 || grants cred ip 2))
              && (not (has flags o_exec) || grants cred ip 1))
        then success
        else fail eacces)
unfolding dentry_outcome outcome admits
opened_lem cred ip flags =
    let (r, (w, (a, (x, u)))) = mask_bits flags in
    check_dentry_permission-outcome cred (some ip) (perm_mask_from_open_flags flags)
    ∙ rw (r, w, a, x, u) (ground arith)

-- Where the check of an open passed and the file's flags admit a mask, the user is the superuser or has
-- the right to write if the mask writes or appends and the flags are 0 or hold one of O_WRONLY, O_CREAT,
-- O_RDWR and O_APPEND; and the right to read if the mask reads and the flags are 0, are exactly
-- O_WRONLY, or hold O_RDWR.
pub opened-Grants :
    (cred : Cred) (ip : Inode) (flags mask : ℕ)
    → check_dentry_permission cred (some ip) (perm_mask_from_open_flags flags) ≡ success
    → check_file_permission flags mask ≡ success
    → ((flags == 0
            || (has flags o_wronly
                || (has flags o_creat || has flags o_rdwr)
                || has flags o_append))
          ≡ true
        → (has mask may_write || has mask may_append) ≡ true
        → (cred.euid == 0 || grants cred ip 2) ≡ true)
      × (((flags == 0) || (flags == o_wronly) || has flags o_rdwr) ≡ true
          → has mask may_read ≡ true
          → (cred.euid == 0 || grants cred ip 4) ≡ true)
unfolding check_file_permission
opened-Grants cred ip flags mask passed used =
    let f = sym (opened_lem cred ip flags) ∙ passed in (ground arith, ground arith)

-- Flags that are neither 0 nor exactly O_WRONLY and do not hold O_RDWR: check_dentry_permission does not
-- ask for the right to read. It passes exactly where the user is the superuser or has the right to
-- write, or the flags hold none of O_WRONLY, O_CREAT and O_APPEND; and, with O_EXEC, may execute the
-- file. check_file_permission passes every mask for such flags, also one that reads.
pub unchecked_flags :
    (cred : Cred) (ip : Inode) (flags mask : ℕ)
    → flags ≢ 0
    → flags ≢ o_wronly
    → has flags o_rdwr ≡ false
    → (check_dentry_permission cred (some ip) (perm_mask_from_open_flags flags) ≡ (
        if (not (has flags o_wronly || has flags o_creat || has flags o_append)
            || (cred.euid == 0 || grants cred ip 2))
          && (not (has flags o_exec) || grants cred ip 1)
        then success
        else fail eacces))
      × (check_file_permission flags mask ≡ success)
unfolding check_file_permission
unchecked_flags cred ip flags mask nonzero other not_both =
    (opened_lem cred ip flags ∙ ground arith, ground arith)
