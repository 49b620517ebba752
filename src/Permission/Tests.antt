-- ===== src/Permission/Tests.antt =====
-- The tests of kernel/kernel/permission.c on a file of user 7 and group 40 with the mode 0640.
use vimix_os.Base.{◌≡◌, refl, true, not, ◌&&◌, ◌||◌, some, [], ◌∷◌, arith, ◌==◌, if◌then◌else◌}
use vimix_os.Permission.{
  has, o_wronly, o_rdwr, o_creat, o_append, o_exec, Cred, Inode, success, fail, eacces, eperm,
  may_read, may_write, may_unlink, may_append, check_inode_permission, check_dentry_permission,
  perm_mask_from_open_flags, check_file_permission,
}
use vimix_os.Permission.Classes.{grants, check_inode_permission-outcome, outcome}
use vimix_os.Permission.OpenFlags.{opened-Grants, unchecked_flags}

abbrev file : Inode
file = record { i_mode = 0o640; uid = 7; gid = 40 }

abbrev sticky : Inode
sticky = record { i_mode = 0o1777; uid = 7; gid = 40 }

abbrev member : Cred
member = record { euid = 9; egid = 9; groups = 40 ∷ [] }

abbrev owner : Cred
owner = record { euid = 7; egid = 7; groups = [] }

-- a file that others may only write
abbrev drop_box : Inode
drop_box = record { i_mode = 0o602; uid = 7; gid = 40 }

abbrev writer : Cred
writer = record { euid = 9; egid = 9; groups = [] }

member_reads : check_inode_permission member file may_read ≡ success
unfolding check_inode_permission vimix_os.Permission.in_group
member_reads = refl

member_writes : check_inode_permission member file may_write ≡ fail eacces
unfolding check_inode_permission vimix_os.Permission.in_group
member_writes = refl

member_unlinks : check_inode_permission member sticky may_unlink ≡ fail eperm
unfolding check_inode_permission vimix_os.Permission.in_group
member_unlinks = refl

inode_outcome_example :
    check_inode_permission member sticky may_unlink ≡ outcome member sticky may_unlink
inode_outcome_example = check_inode_permission-outcome member sticky may_unlink

owner_opens : check_dentry_permission owner (some file) (perm_mask_from_open_flags 0x202) ≡ success
unfolding check_dentry_permission perm_mask_from_open_flags vimix_os.Permission.in_group
owner_opens = refl

owner_uses : check_file_permission 0x202 may_write ≡ success
unfolding check_file_permission
owner_uses = refl

opened_example :
    ((0x202 == 0
          || (has 0x202 o_wronly || (has 0x202 o_creat || has 0x202 o_rdwr) || has 0x202 o_append))
        ≡ true
      → (has may_write may_write || has may_write may_append) ≡ true
      → (owner.euid == 0 || grants owner file 2) ≡ true)
    × (((0x202 == 0) || (0x202 == o_wronly) || has 0x202 o_rdwr) ≡ true
        → has may_write may_read ≡ true
        → (owner.euid == 0 || grants owner file 4) ≡ true)
opened_example = opened-Grants owner file 0x202 may_write owner_opens owner_uses

-- O_TRUNC alone
truncate_opens :
    check_dentry_permission member (some file) (perm_mask_from_open_flags 0x400) ≡ success
unfolding check_dentry_permission perm_mask_from_open_flags vimix_os.Permission.in_group
truncate_opens = refl

-- O_WRONLY | O_CREAT, by a user who has no right to read
unchecked_example :
    (check_dentry_permission writer (some drop_box) (perm_mask_from_open_flags 0x201) ≡ (
      if (not (has 0x201 o_wronly || has 0x201 o_creat || has 0x201 o_append)
          || (writer.euid == 0 || grants writer drop_box 2))
        && (not (has 0x201 o_exec) || grants writer drop_box 1)
      then success
      else fail eacces))
    × (check_file_permission 0x201 may_read ≡ success)
unchecked_example = unchecked_flags writer drop_box 0x201 may_read (omega arith) (omega arith) refl

writer_reads :
    check_dentry_permission writer (some drop_box) (perm_mask_from_open_flags 0) ≡ fail eacces
unfolding check_dentry_permission perm_mask_from_open_flags vimix_os.Permission.in_group
writer_reads = refl

writer_opens :
    check_dentry_permission writer (some drop_box) (perm_mask_from_open_flags 0x201) ≡ success
unfolding check_dentry_permission perm_mask_from_open_flags vimix_os.Permission.in_group
writer_opens = refl
