-- ===== src/Examples/Data.antt =====
-- A small database for the tables of internal/store/: two accounts, two releases of one work, and a
-- chain of two revisions.
use moan_subs.Prelude.{ℕ, Bool, false, [], ◌∷◌, Option, none, some}
use moan_subs.Prelude.Text.{codes}
use moan_subs.Store.Schema.{Db, Account, Release, Track, Invite, user, shared, no_metadata}
use moan_subs.Store.Tracks.{NewTrack}

abbrev pub member : ℕ → Bool → Account
member id disabled = record {
  id = id;
  name = codes "member";
  token_hash = codes "hash";
  password_hash = none;
  token_enc = none;
  disabled = disabled;
  disabled_reason = none;
  disabled_at = none;
  role = user;
  invited_by = none;
  trusted = false;
}

abbrev pub film : ℕ → Release
film id = record {
  id = id;
  work_id = some 4;
  oshash = codes "8e245d9679d31e12";
  phash = none;
  phash_blocks = [];
  stem = none;
  duration_ms = 60000;
  metadata = no_metadata;
  autoconfirm_blocked = false;
  withdrawn_at = none;
  withdrawn_reason = none;
}

abbrev pub revision_row : ℕ → ℕ → Option ℕ → Track
revision_row id revision supersedes = record {
  id = id;
  release_id = 1;
  lang = codes "en";
  body = codes "body";
  generated = false;
  provenance = none;
  license = codes "CC0";
  source = none;
  uploader_id = some 1;
  created_at = 5;
  downloads = 0;
  withdrawn_at = none;
  withdrawn_reason = none;
  up = 0;
  down = 0;
  kind = codes "default";
  kind_label = none;
  root_id = 10;
  revision = revision;
  supersedes_id = supersedes;
  revision_locked = false;
  authorship = shared;
  declared_generated = false;
}

abbrev pub draft : NewTrack
draft = record {
  release_id = 1;
  lang = codes "en";
  body = codes "third";
  generated = false;
  provenance = none;
  license = [];
  source = none;
  uploader_id = some 2;
  kind = [];
  kind_label = none;
  authorship = none;
  declared_generated = false;
  root_id = 0;
  revision = 0;
  supersedes_id = none;
}

abbrev pub code_of : ℕ → Invite
code_of creator = record {
  code = codes "abc";
  created_by = creator;
  max_uses = some 1;
  uses = 0;
  expires_at = none;
  disabled_at = none;
  created_at = 3;
}

abbrev pub first_revision : Track
first_revision = revision_row 10 1 none

abbrev pub second_revision : Track
second_revision = revision_row 11 2 (some 10)

abbrev pub sample : Db
sample = record {
  accounts = member 1 false ∷ member 2 false ∷ [];
  releases = film 1 ∷ film 2 ∷ [];
  tracks = first_revision ∷ second_revision ∷ [];
  votes = [];
  fit_reports = [];
  invites = code_of 1 ∷ [];
  sessions = [];
  stash_ids = [];
  works = 4 ∷ [];
  offsets = [];
  removals = [];
  proposals = [];
  confirmations = [];
  stashbox_keys = [];
  next_account = 3;
  next_release = 3;
  next_removal = 1;
  next_proposal = 1;
  next_track = 12;
  next_work = 5;
}
