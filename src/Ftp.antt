-- ===== src/Ftp.antt =====
-- interactsh-srv/oobsrv/ftp.go: the notifier of the FTP server, the capture of its interactions, and
-- the paths that the driver accepts. The FTP server and the file system are libraries.
use interactsh_lite.Prelude.Text.{codes}
use interactsh_lite.Server.{Interaction, Server, Library}
use interactsh_lite.SharedBucket.{append}
use interactsh_lite.Prelude.{
  ℕ, ◌+◌, Bool, true, false, not, ◌&&◌, Option, none, some, [], ◌++◌, if◌then◌else◌, Bytes, equal,
  starts_with,
}

-- `filepath.Join` of a directory and a cleaned path, and `filepath.EvalSymlinks`.
pub record FtpFiles : Type 0 where
  pub join_clean : Bytes → Bytes → Bytes
  pub eval_symlinks : Bytes → Option Bytes

unfoldable pub safe_path : FtpFiles → Bytes → Bytes → Option Bytes
unfolding equal starts_with
safe_path files root_dir path = elim (files.eval_symlinks (files.join_clean root_dir path)) [
  | none ↦ none
  | some resolved ↦ elim (files.eval_symlinks root_dir) [
    | none ↦ none
    | some root ↦
        if not (equal resolved root) && not (starts_with resolved (root ++ codes "/"))
        then none
        else some resolved
  ]
]

-- The calls of the notifier.
pub data Notification : Type 0 where
  before_login_user : Bytes → Notification
  after_user_login : Bytes → Bytes → Notification
  before_put_file after_file_put : Bytes → Notification
  before_delete_file after_file_deleted : Bytes → Notification
  before_download_file after_file_downloaded : Bytes → Notification
  before_change_cur_dir after_cur_dir_changed : Bytes → Bytes → Notification
  before_create_dir after_dir_created : Bytes → Notification
  before_delete_dir after_dir_deleted : Bytes → Notification

unfoldable pub description : Notification → Bytes
description (before_login_user u) = u ++ codes " logging in"
description (after_user_login u p) =
    codes "user " ++ (u ++ (codes " logged in with password " ++ p))
description (before_put_file p) = codes "uploading " ++ p
description (after_file_put p) = codes "uploaded " ++ p
description (before_delete_file p) = codes "deleting " ++ p
description (after_file_deleted p) = codes "deleted " ++ p
description (before_download_file p) = codes "downloading file " ++ p
description (after_file_downloaded p) = codes "downloaded file " ++ p
description (before_change_cur_dir a b) =
    codes "changing directory from " ++ (a ++ (codes " to " ++ b))
description (after_cur_dir_changed a b) =
    codes "changed directory from " ++ (a ++ (codes " to " ++ b))
description (before_create_dir p) = codes "creating directory " ++ p
description (after_dir_created p) = codes "created directory " ++ p
description (before_delete_dir p) = codes "deleting directory " ++ p
description (after_dir_deleted p) = codes "deleted directory " ++ p

-- The calls that come first of their kind count.
unfoldable pub is_counted : Notification → Bool
is_counted (before_login_user u) = true
is_counted (before_put_file p) = true
is_counted (before_delete_file p) = true
is_counted (before_download_file p) = true
is_counted (before_change_cur_dir a b) = true
is_counted (before_create_dir p) = true
is_counted (before_delete_dir p) = true
is_counted _ = false

-- The command that the notifier is called for.
pub record FtpContext : Type 0 where
  pub cmd : Bytes
  pub param : Bytes
  pub remote_addr : Bytes
  pub now : ℕ

abbrev pub ftp_interaction : Bytes → Bytes → ℕ → Interaction
ftp_interaction raw_request remote_addr now = record {
  protocol = codes "ftp";
  unique_id = [];
  full_id = [];
  q_type = [];
  raw_request = raw_request;
  raw_response = [];
  smtp_from = [];
  smtp_to = [];
  remote_address = remote_addr;
  timestamp = now;
}

module _ {H : Type 0} (lib : Library) where
  unfoldable pub capture_ftp_interaction : Bytes → Bytes → ℕ → Server H → Server H
  unfolding append
  capture_ftp_interaction raw_request remote_addr now s = elim s.extra_bucket [
    | none ↦ s
    | some bucket ↦ elim (lib.marshal (ftp_interaction raw_request remote_addr now)) [
      | none ↦ s
      | some encoded ↦ record s { extra_bucket = some (append encoded bucket) }
    ]
  ]

  -- `BeforeLoginUser` and the other calls, by the notification.
  unfoldable pub notify : FtpContext → Notification → Server H → Server H
  unfolding capture_ftp_interaction description is_counted
  notify ctx n s =
      let s' = if is_counted n then record s { ftp_count = s.ftp_count + 1 } else s in
      let raw = ctx.cmd ++ (codes " " ++ (ctx.param ++ (codes "\n" ++ description n))) in
      capture_ftp_interaction raw ctx.remote_addr ctx.now s'
