-- ===== src/Client/Calls/Backup.antt =====
-- The sections on imports and backups of frontend-react/src/lib/apiClient.ts. An archive is the text
-- of its bytes.
use billgen.Prelude.{String, true, List, [], ◌∷◌, Option}
use billgen.Json.{Json, text, bool, obj, end, field}
use billgen.Client.Http.{HttpRequest, Fetched, json_body, bytes_body, M, ◌>>=◌}
use billgen.Client.Request.{Call, read_json, read_blob, fetch_with_auth}
use billgen.Client.Calls.Build.{get, post, set_if}

pub data BackupCall : Type 0 where
  preview_legacy_import commit_legacy_import restore_backup : Json → BackupCall
  export_backup passphrase_notice : BackupCall

unfoldable pub backup_plan : BackupCall → Call
backup_plan (preview_legacy_import backup) = post "/imports/legacy/preview" backup
backup_plan (commit_legacy_import backup) = post "/imports/legacy/commit" backup
backup_plan export_backup = get "/backup/export"
backup_plan (restore_backup backup) = post "/backup/restore" backup
backup_plan passphrase_notice = get "/backup/passphrase-notice"

abbrev pub passphrase_body : String → Json
passphrase_body passphrase =
    obj (field "passphrase" (text passphrase) (field "acknowledge_unrecoverable" (bool true) end))

abbrev pub archive_headers : Option String → List (String × String)
archive_headers passphrase =
    ("Content-Type", "application/octet-stream") ∷ set_if "X-Backup-Passphrase" passphrase

module _ {W : Type 0} (fetch : W → HttpRequest → Fetched × W) (base_url : String) where
  -- The blob of the answer; the count of documents that a header of it holds is left out.
  unfoldable pub export_backup_encrypted : String → M W String
  export_backup_encrypted passphrase = do
    r ←
        fetch_with_auth fetch base_url "POST" "/backup/export/encrypted"
          (("Content-Type", "application/json") ∷ []) (json_body (passphrase_body passphrase))
    read_blob r

  unfoldable pub restore_backup_file : String → Option String → M W Json
  restore_backup_file archive passphrase = do
    r ←
        fetch_with_auth fetch base_url "POST" "/backup/restore/file" (archive_headers passphrase)
          (bytes_body archive)
    read_json r
