-- ===== src/Permission.antt =====
-- kernel/kernel/permission.c: who may do what with a file. Ids, modes and masks are their bit
-- patterns; `m & F` for a flag F of one bit tests that bit.
pub mod Classes
pub mod OpenFlags
mod Tests
use vimix_os.Base.{
  ℕ, ◌+◌, ◌/◌, ◌%◌, Bool, true, false, not, ◌&&◌, ◌||◌, Option, none, some, List, [], ◌∷◌, ◌==◌,
  if◌then◌else◌,
}

-- `m & flag` as a condition, for a power of two
abbrev pub has : ℕ → ℕ → Bool
has m flag = m / flag % 2 == 1

-- `m | flag`, for a power of two
abbrev pub with_flag : ℕ → ℕ → ℕ
with_flag m flag = if has m flag then m else m + flag

abbrev pub o_wronly : ℕ
o_wronly = 0x001

abbrev pub o_rdwr : ℕ
o_rdwr = 0x002

abbrev pub o_creat : ℕ
o_creat = 0x200

abbrev pub o_append : ℕ
o_append = 0x800

abbrev pub o_exec : ℕ
o_exec = 0x1000

abbrev pub may_exec : ℕ
may_exec = 0x01

abbrev pub may_write : ℕ
may_write = 0x02

abbrev pub may_read : ℕ
may_read = 0x04

abbrev pub may_append : ℕ
may_append = 0x08

abbrev pub may_unlink : ℕ
may_unlink = 0x80

abbrev pub s_isvtx : ℕ
s_isvtx = 0o1000

-- the effective part of `struct cred`
pub record Cred : Type 0 where
  pub euid : ℕ
  pub egid : ℕ
  pub groups : List ℕ

-- the part of `struct inode` that is tested
pub record Inode : Type 0 where
  pub i_mode : ℕ
  pub uid : ℕ
  pub gid : ℕ

pub data Errno : Type 0 where
  eperm enoent ebadf eacces : Errno

-- `syserr_t`: 0 or a negative error code
pub data Syserr : Type 0 where
  success : Syserr
  fail : Errno → Syserr

pub perm_mask_from_open_flags : ℕ → ℕ
perm_mask_from_open_flags flags =
    let m1 = if flags == 0 then with_flag 0 may_read else 0 in
    let m2 = if has flags o_wronly then with_flag m1 may_write else m1 in
    let m3 = if has flags o_creat then with_flag m2 may_write else m2 in
    let m4 = if has flags o_rdwr then with_flag (with_flag m3 may_read) may_write else m3 in
    let m5 = if has flags o_append then with_flag m4 may_append else m4 in
    if has flags o_exec then with_flag m5 may_exec else m5

-- of an open file only its flags are tested
pub check_file_permission : ℕ → ℕ → Syserr
check_file_permission flags mask =
    let needs_write_access = has mask may_write || has mask may_append in
    let needs_read_access = has mask may_read in
    if flags == 0 && needs_write_access
    then fail ebadf
    else if flags == o_wronly && needs_read_access
    then fail ebadf
    else success

is_member : ℕ → List ℕ → Bool
is_member gid [] = false
is_member gid (g ∷ groups) = g == gid || is_member gid groups

pub in_group : Cred → ℕ → Bool
unfolding is_member
in_group cred gid = gid == cred.egid || is_member gid cred.groups

pub permission_check_read : Cred → ℕ → ℕ → ℕ → Bool
permission_check_read cred mode uid gid =
    if cred.euid == 0
    then true
    else if cred.euid == uid
    then has mode 0o400
    else if in_group cred gid
    then has mode 0o040
    else has mode 0o004

pub permission_check_write : Cred → ℕ → ℕ → ℕ → Bool
permission_check_write cred mode uid gid =
    if cred.euid == 0
    then true
    else if cred.euid == uid
    then has mode 0o200
    else if in_group cred gid
    then has mode 0o020
    else has mode 0o002

pub permission_check_execute : Cred → ℕ → ℕ → ℕ → Bool
permission_check_execute cred mode uid gid =
    if cred.euid == uid
    then has mode 0o100
    else if in_group cred gid
    then has mode 0o010
    else has mode 0o001

-- the three tests that follow the handling of `MAY_UNLINK`
check_mask : Cred → Inode → ℕ → Syserr
unfolding permission_check_read permission_check_write permission_check_execute
check_mask cred ip mask =
    if has mask may_read && not (permission_check_read cred ip.i_mode ip.uid ip.gid)
    then fail eacces
    else if (has mask may_write || has mask may_append)
        && not (permission_check_write cred ip.i_mode ip.uid ip.gid)
    then fail eacces
    else if has mask may_exec && not (permission_check_execute cred ip.i_mode ip.uid ip.gid)
    then fail eacces
    else success

-- `ASSERT_IS_FILE_OWNER` fails for these
abbrev pub is_no_owner : Cred → Inode → Bool
is_no_owner cred ip = not (cred.euid == 0) && not (cred.euid == ip.uid)

pub check_inode_permission : Cred → Inode → ℕ → Syserr
unfolding check_mask
check_inode_permission cred ip mask =
    if has mask may_unlink
    then (if has ip.i_mode s_isvtx
        then (if is_no_owner cred ip then fail eperm else success)
        else check_mask cred ip (with_flag mask may_write))
    else check_mask cred ip mask

-- A dentry without an inode is invalid.
pub check_dentry_permission : Cred → Option Inode → ℕ → Syserr
unfolding check_mask
check_dentry_permission cred none mask = fail enoent
check_dentry_permission cred (some ip) mask =
    if has mask may_unlink
    then (if has ip.i_mode s_isvtx
        then (if is_no_owner cred ip then fail eperm else success)
        else check_mask cred ip (with_flag mask may_write))
    else check_mask cred ip mask
