-- ===== src/Prompt.antt =====
-- fallback/prompt: what the fallback window shows for an event of a session.
pub mod Normalize
pub mod Extractors
pub mod Builder
pub mod Assembly
pub mod Equivalence
pub mod Unique
pub mod Terms
pub mod Hints
use noctalia_unofficial_auth.Base.{ℕ, Bool, false, Option, List, [], ◌∷◌}
use noctalia_unofficial_auth.Text.{Text}

-- The regular expressions of the code, named for what they capture.
pub data Pattern : Type 0 where
  quoted_command path unlock_target identity key_id key_type creation_date : Pattern

-- What the code asks of Unicode, of QRegularExpression and of QFileInfo.
pub record TextFunctions : Type 0 where
  pub is_space : ℕ → Bool
  pub to_lower : Text → Text
  -- captured(1) of a match; `none` is no match.
  pub capture : Pattern → Text → Option Text
  pub file_name : Text → Text
  -- compare, contains and replace with Qt::CaseInsensitive.
  pub same_folded : Text → Text → Bool
  pub contains_folded : Text → Text → Bool
  pub remove_folded : Text → Text → Text

-- fallback/prompt/PromptModel.hpp
pub data PromptIntent : Type 0 where
  generic unlock run_command open_pgp fingerprint fido2 : PromptIntent

pub record PromptDisplayModel : Type 0 where
  pub intent : PromptIntent
  pub title : Text
  pub summary : Text
  pub requestor : Text
  pub details : Text
  pub prompt : Text
  pub passphrase_prompt : Bool
  pub allow_empty_response : Bool

abbrev pub new_model : PromptDisplayModel
new_model = record {
  intent = generic;
  title = [];
  summary = [];
  requestor = [];
  details = [];
  prompt = [];
  passphrase_prompt = false;
  allow_empty_response = false;
}
