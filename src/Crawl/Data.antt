-- ===== src/Crawl/Data.antt =====
-- The state of a tree crawl, and the parts that it calls
-- (web_listening/blocks/tree_crawler.py, `_bootstrap_scope_in_transaction`).
use web_listening.Prelude.{
  ℕ, Bool, Option, none, some, List, [], ◌∷◌, any, Text, same_text, if◌then◌else◌,
}

-- A row's identifier.
abbrev pub RowId : Type 0
RowId = ℕ

-- An exception: one of `_ROLLBACK_REQUIRED_EXECUTION_ERRORS`, or any other.
pub data Exception : Type 0 where
  rollback_required ordinary : ℕ → Exception

-- `ValueError`, of `urlsplit`, `urlparse` or `urljoin`.
abbrev pub value_error : Exception
value_error = ordinary 0

-- `body` stands for the content of the page.
pub record Page : Type 0 where
  pub final_url : Text
  pub body : ℕ

-- What a capture that was not accepted says: whether it was classified as `not_found`, and its final
-- URL, empty where there is none.
pub record Refusal : Type 0 where
  pub is_not_found : Bool
  pub final_url : Text

pub data Acquired : Type 0 where
  accepted : Page → Acquired
  declined : Refusal → Acquired

-- A row that was written, with the hash of its latest content, empty where there is none.
pub record Saved : Type 0 where
  pub id : RowId
  pub hash : Text

-- A call returns, or it raises.
pub data Reply (A : Type 0) : Type 0 where
  gave : A → Reply A
  threw : Exception → Reply A

-- The gateway, the pacing and the storage, which read and change a world `W`: the acquisition of a
-- page and of a document with its attempt written down, a page with its snapshot (row, snapshot, row),
-- an edge, `_track_file` after its pause, and the end of the run's row.
pub record Backend (W : Type 0) : Type 0 where
  pub acquire_page : Text → W → Reply Acquired × W
  pub acquire_file : Text → W → Reply Acquired × W
  pub save_page : Text → (depth : ℕ) → Page → W → Reply Saved × W
  pub add_page_edge : (from_page : RowId) → (to_page : RowId) → W → Reply (Unit {0}) × W
  pub track_file : (page : RowId) → (file_url : Text) → (page_url : Text) → W → Reply Saved × W
  pub complete_run : (pages_seen : ℕ) → (files_seen : ℕ) → W → Reply (Unit {0}) × W
  pub fail_run : (pages_seen : ℕ) → (files_seen : ℕ) → W → Reply (Unit {0}) × W

pub record Queued : Type 0 where
  pub url : Text
  pub depth : ℕ
  pub from_page : Option RowId

-- The local variables of the crawl and its `TreeCrawlResult`. Sets are lists; their order is never
-- read.
pub record Crawl : Type 0 where
  pub queued_pages : List Queued
  pub queued_page_urls : List Text
  pub processed_page_urls : List Text
  pub processed_file_urls : List Text
  pub requested_pages : ℕ
  pub requested_file_urls : List Text
  pub page_id_by_url : List (Text × RowId)
  pub pages : List RowId
  pub files : List RowId
  pub page_failures : List Text
  pub file_failures : List Text
  pub skipped_external_pages : ℕ
  pub skipped_external_files : ℕ
  pub skipped_duplicate_pages : ℕ
  pub skipped_duplicate_files : ℕ
  pub off_prefix_same_origin_files : ℕ

-- Where the code goes on, or an exception has passed through it; the variables, of type `S`, come back
-- after both.
pub data Went (S : Type 0) : Type 0 where
  on : S → Went S
  out : Exception → S → Went S

module _ {S W : Type 0} where
  abbrev pub follow : Went S → W → (S → W → Went S × W) → Went S × W
  follow (on st) w next = next st w
  follow (out x st) w next = (out x st, w)

  -- A call, and what is done with what it gives.
  abbrev pub after : {A : Type 0} → Reply A → W → S → (A → W → Went S × W) → Went S × W
  after (gave a) w st next = next a w
  after (threw x) w st next = (out x st, w)

  -- A call that raises `ValueError` where the test holds, and else what comes after it.
  abbrev pub unless : Bool → S → W → Went S × W → Went S × W
  unless raises st w rest = if raises then (out value_error st, w) else rest

abbrev pub is_among : Text → List Text → Bool
is_among x xs = any (same_text x) xs

abbrev pub find_id : Text → List (Text × RowId) → Option RowId
find_id url [] = none
find_id url ((key, id) ∷ rows) = if same_text key url then some id else find_id url rows
