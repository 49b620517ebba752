-- ===== src/Permission/Classes.antt =====
-- The rights of kernel/kernel/permission.c against the three classes of a file mode: the owner's, the
-- group's and the others' triplet of read, write and execute bits.
use vimix_os.Base.{
  ℕ, ◌/◌, ◌^◌, ◌≡◌, refl, Bool, true, not, ◌&&◌, ◌||◌, Option, none, some, arith, ◌==◌,
  if◌then◌else◌,
}
use vimix_os.Permission.{
  has, with_flag, may_read, may_write, may_append, may_exec, may_unlink, s_isvtx, Cred, Inode,
  Syserr, success, fail, eperm, eacces, enoent, in_group, check_mask, check_inode_permission,
  check_dentry_permission, permission_check_read, permission_check_write, permission_check_execute,
}

-- The class of a user: 2 for the owner, 1 for a member of the file's group, 0 for the others.
pub class_of : Cred → Inode → ℕ
class_of cred ip = if cred.euid == ip.uid then 2 else if in_group cred ip.gid then 1 else 0

-- the right 4 (read), 2 (write) or 1 (execute) in the triplet of the user's class
pub grants : Cred → Inode → ℕ → Bool
unfolding class_of
grants cred ip right = has (ip.i_mode / 8 ^ class_of cred ip) right

-- A user may read, write, append or unlink if the class has the right; so may the superuser, who
-- executes only what the class may.
unfoldable pub admits : Cred → Inode → ℕ → Bool
unfolding grants
admits cred ip mask =
    (not (has mask may_read) || (cred.euid == 0 || grants cred ip 4))
    && ((not (has mask may_write || (has mask may_append || has mask may_unlink))
          || (cred.euid == 0 || grants cred ip 2))
        && (not (has mask may_exec) || grants cred ip 1))

-- In a sticky directory only its owner and the superuser may unlink, whatever else the mask has.
unfoldable pub outcome : Cred → Inode → ℕ → Syserr
unfolding admits
outcome cred ip mask =
    if has mask may_unlink && has ip.i_mode s_isvtx
    then (if cred.euid == 0 || cred.euid == ip.uid then success else fail eperm)
    else if admits cred ip mask
    then success
    else fail eacces

unfoldable pub dentry_outcome : Cred → Option Inode → ℕ → Syserr
unfolding outcome
dentry_outcome cred none mask = fail enoent
dentry_outcome cred (some ip) mask = outcome cred ip mask

read_lem :
    (cred : Cred) (ip : Inode)
    → permission_check_read cred ip.i_mode ip.uid ip.gid ≡ (cred.euid == 0 || grants cred ip 4)
unfolding permission_check_read grants
read_lem cred ip = ground arith

write_lem :
    (cred : Cred) (ip : Inode)
    → permission_check_write cred ip.i_mode ip.uid ip.gid ≡ (cred.euid == 0 || grants cred ip 2)
unfolding permission_check_write grants
write_lem cred ip = ground arith

execute_lem :
    (cred : Cred) (ip : Inode)
    → permission_check_execute cred ip.i_mode ip.uid ip.gid ≡ grants cred ip 1
unfolding permission_check_execute grants
execute_lem cred ip = ground arith

check_mask_lem :
    (cred : Cred) (ip : Inode) (mask : ℕ)
    → check_mask cred ip mask ≡ (
        if (not (has mask may_read) || (cred.euid == 0 || grants cred ip 4))
          && ((not (has mask may_write || has mask may_append)
                || (cred.euid == 0 || grants cred ip 2))
              && (not (has mask may_exec) || grants cred ip 1))
        then success
        else fail eacces)
unfolding check_mask
check_mask_lem cred ip mask = rw (read_lem, write_lem, execute_lem) (ground arith)

-- `| MAY_WRITE` changes no other right.
with_flag-has :
    (mask : ℕ)
    → (has (with_flag mask may_write) may_read ≡ has mask may_read)
      × ((has (with_flag mask may_write) may_exec ≡ has mask may_exec)
          × (has (with_flag mask may_write) may_write ≡ true))
with_flag-has mask = ground arith

-- The branches agree with the outcome whatever the single bits and rights are: `c` and `d` are the
-- tests of the mask and of the mask with the right to write added.
branches :
    (u s z o r w a x m n k : Bool) {c d : Syserr}
    → c ≡ (if (not r || m) && ((not (w || a) || n) && (not x || k)) then success else fail eacces)
    → d ≡ (if (not r || m) && (n && (not x || k)) then success else fail eacces)
    → (if u then (if s then (if not z && not o then fail eperm else success) else d) else c) ≡ (
        if u && s
        then (if z || o then success else fail eperm)
        else if (not r || m) && ((not (w || (a || u)) || n) && (not x || k))
        then success
        else fail eacces)
branches u s z o r w a x m n k p q = rw (p, q) (ground arith)

write_mask_lem :
    (cred : Cred) (ip : Inode) (mask : ℕ)
    → check_mask cred ip (with_flag mask may_write) ≡ (
        if (not (has mask may_read) || (cred.euid == 0 || grants cred ip 4))
          && ((cred.euid == 0 || grants cred ip 2) && (not (has mask may_exec) || grants cred ip 1))
        then success
        else fail eacces)
write_mask_lem cred ip mask =
    let (r, (x, w)) = with_flag-has mask in
    rw (check_mask_lem cred ip (with_flag mask may_write), r, x, w) refl

-- For every user, inode and mask the answer of `check_inode_permission` is the one of the class
-- model: the class of the user decides on each right of the mask, to unlink is to write, the sticky
-- bit reserves unlinking for the owner and the superuser, `EPERM` is the answer to a breach of that
-- rule only and `EACCES` to every other refusal.
pub check_inode_permission-outcome :
    (cred : Cred) (ip : Inode) (mask : ℕ)
    → check_inode_permission cred ip mask ≡ outcome cred ip mask
unfolding check_inode_permission outcome admits
check_inode_permission-outcome cred ip mask =
    branches (has mask may_unlink) (has ip.i_mode s_isvtx) (cred.euid == 0) (cred.euid == ip.uid)
      (has mask may_read) (has mask may_write) (has mask may_append) (has mask may_exec)
      (cred.euid == 0 || grants cred ip 4) (cred.euid == 0 || grants cred ip 2) (grants cred ip 1)
      (check_mask_lem cred ip mask) (write_mask_lem cred ip mask)

-- For a directory entry too the answer is the one of the class model, with `ENOENT` for an entry
-- without an inode.
pub check_dentry_permission-outcome :
    (cred : Cred) (dentry : Option Inode) (mask : ℕ)
    → check_dentry_permission cred dentry mask ≡ dentry_outcome cred dentry mask
unfolding check_dentry_permission dentry_outcome check_inode_permission
check_dentry_permission-outcome cred none mask = refl
check_dentry_permission-outcome cred (some ip) mask = check_inode_permission-outcome cred ip mask
