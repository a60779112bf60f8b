-- ===== src/Frontend/Pages/Documents.antt =====
-- app/(app)/documents/page.tsx: the documents that the user uploads, and the polls that wait for their
-- classifications. `toLowerCase` is a parameter; the clock gives the milliseconds since 1970 and the
-- ISO text of an instant.
pub mod Polling
use trust_vault.Prelude.{
  ℕ, zero, suc, ◌+◌, ◌-◌, ◌==◌, leb, Bool, true, false, ◌||◌, List, [], ◌∷◌, ◌++◌, Option, none,
  some, Text, text, text_eq, one_of, truthy_text, decimal, length, split_on, trim, if◌then◌else◌,
}
use trust_vault.Sdk.Value.{Value, coalesce, member, str, to_string}

pub record UploadedDoc : Type 0 where
  pub id : Text
  pub name : Text
  pub text : Text
  pub uploaded_at : Text
  pub file_type : Option Text

-- An interval that waits for the classifications of a document. `waiting` counts the requests that have
-- not been answered.
pub record Poll : Type 0 where
  pub extraction_id : Text
  pub attempts : ℕ
  pub is_active : Bool
  pub waiting : ℕ

pub record DocumentsPage : Type 0 where
  pub docs : List UploadedDoc
  pub text_input : Text
  pub doc_name : Text
  pub uploading : Bool
  pub upload_status : Option Text
  pub polls : List Poll

abbrev pub initial_page : DocumentsPage
initial_page = record {
  docs = [];
  text_input = [];
  doc_name = [];
  uploading = false;
  upload_status = none;
  polls = [];
}

pub record Instant : Type 0 where
  pub millis : ℕ
  pub iso : Text

unfoldable doc_id : Instant → Text
unfolding text decimal
doc_id now = text "doc-" ++ decimal now.millis

unfoldable doc_title : DocumentsPage → Text
unfolding text decimal trim
doc_title page =
    if truthy_text (trim page.doc_name)
    then trim page.doc_name
    else text "Document " ++ decimal (length page.docs + 1)

-- `handleUpload` up to its `await`; what it sends is the first document of the list.
unfoldable pub begin_upload : Instant → DocumentsPage → DocumentsPage
unfolding doc_id doc_title trim
begin_upload now page =
    if truthy_text (trim page.text_input)
    then record page {
      docs =
          record {
            id = doc_id now;
            name = doc_title page;
            text = page.text_input;
            uploaded_at = now.iso;
            file_type = none;
          }
          ∷ page.docs;
    }
    else page

-- And from there, whether the classification was accepted or not.
unfoldable pub end_upload : DocumentsPage → DocumentsPage
end_upload page = record page { text_input = []; doc_name = [] }

pub record File : Type 0 where
  pub name : Text
  pub type : Text

-- `handleFileUpload` up to the answer of `/documents/extract`.
unfoldable pub begin_file : File → DocumentsPage → DocumentsPage
unfolding text
begin_file file page = record page {
  uploading = true;
  upload_status = some (text "Uploading " ++ (file.name ++ (8230 ∷ [])));
}

-- The request was answered with this body and the file was read as this preview.
unfoldable pub file_extracted : Instant → File → Value → Text → DocumentsPage → DocumentsPage
unfolding doc_id text to_string
file_extracted now file body preview page =
    let extraction_id = to_string (coalesce (member "extraction_id" body) (str (doc_id now))) in
    record page {
      docs =
          record {
            id = extraction_id;
            name = file.name;
            text = preview;
            uploaded_at = now.iso;
            file_type = some file.type;
          }
          ∷ page.docs;
      uploading = false;
      upload_status =
          some (file.name ++ (text " uploaded " ++ (8212 ∷ text " classification in progress")));
      polls =
          page.polls
          ++ (record { extraction_id = extraction_id; attempts = 0; is_active = true; waiting = 0 }
              ∷ []);
    }

-- The request failed: what the body of the answer says, or the error itself.
unfoldable pub file_failed : Value → Value → DocumentsPage → DocumentsPage
unfolding text to_string
file_failed body_error message page = record page {
  uploading = false;
  upload_status = some (
      text "Upload failed: "
      ++ to_string (coalesce body_error (coalesce message (str (text "unknown error")))));
}

-- The interval fires, and a request is answered; `found` is `check.data?.length > 0`, and false where
-- the request failed.
abbrev pub tick : Poll → Poll
tick poll =
    if poll.is_active
    then record poll { attempts = poll.attempts + 1; waiting = poll.waiting + 1 }
    else poll

abbrev pub ends_poll : Bool → Poll → Bool
ends_poll found poll = found || leb 12 poll.attempts

abbrev pub answer_poll : Bool → Poll → Poll
answer_poll found poll =
    if poll.waiting == 0
    then poll
    else if ends_poll found poll
    then record poll { is_active = false; waiting = poll.waiting - 1 }
    else record poll { waiting = poll.waiting - 1 }

-- The poll at a position of the list changes.
abbrev pub update_at : ℕ → (Poll → Poll) → List Poll → List Poll
update_at i f [] = []
update_at zero f (p ∷ polls) = f p ∷ polls
update_at (suc i) f (p ∷ polls) = p ∷ update_at i f polls

-- Whether an answer to the poll at a position clears the status, which is the same for all polls.
abbrev pub clears : ℕ → Bool → List Poll → Bool
clears i found [] = false
clears zero found (p ∷ polls) = if p.waiting == 0 then false else ends_poll found p
clears (suc i) found (p ∷ polls) = clears i found polls

-- What happens to the page: an upload of a text begins or ends, one of a file begins, is extracted or
-- fails, an interval fires, or the request of a poll is answered.
pub data Action : Type 0 where
  submitted : Instant → Action
  settled : Action
  begun : File → Action
  extracted : Instant → File → Value → Text → Action
  failed : Value → Value → Action
  ticked : ℕ → Action
  polled : ℕ → Bool → Action

unfoldable pub step : Action → DocumentsPage → DocumentsPage
unfolding begin_upload end_upload begin_file file_extracted file_failed
step (Action.submitted now) page = begin_upload now page
step Action.settled page = end_upload page
step (Action.begun file) page = begin_file file page
step (Action.extracted now file body preview) page = file_extracted now file body preview page
step (Action.failed body_error message) page = file_failed body_error message page
step (Action.ticked i) page = record page { polls = update_at i tick page.polls }
step (Action.polled i found) page = record page {
  upload_status = if clears i found page.polls then none else page.upload_status;
  polls = update_at i (answer_poll found) page.polls;
}

pub data FileIcon : Type 0 where
  spreadsheet pdf word plain : FileIcon

-- `xs.pop() ?? ''`
abbrev last_or_empty : List Text → Text
last_or_empty [] = []
last_or_empty (t ∷ []) = t
last_or_empty (t ∷ u ∷ ts) = last_or_empty (u ∷ ts)

unfoldable pub file_icon : (Text → Text) → Text → FileIcon
unfolding text split_on
file_icon to_lower name =
    let ext = to_lower (last_or_empty (split_on 46 name)) in
    if one_of ext (text "csv" ∷ text "tsv" ∷ text "xlsx" ∷ text "xls" ∷ [])
    then FileIcon.spreadsheet
    else if text_eq ext (text "pdf")
    then FileIcon.pdf
    else if one_of ext (text "docx" ∷ text "doc" ∷ [])
    then FileIcon.word
    else FileIcon.plain
