-- ===== src/Handlers/Pages.antt =====
-- internal/handlers: what the pages of rules, extensions and functions share.
pub mod Keeping
use churro.Common.{String}
use churro.Common.Action.{Action, give, rescue}
use churro.Handlers.{Request, value_at, form_value}

pub data Reply (F : Type 0) : Type 0 where
  page : String → F → Reply F
  body : String → Reply F
  json_error : String → Reply F
  redirect : String → Reply F

-- The fields of `HandlerWrapper` that the pages read
pub record Wrapper : Type 0 where
  pub user_email : String
  pub error_text : String
  pub database_type : String

-- `u.Copy(errorText)`
abbrev pub copy : Wrapper → String → Wrapper
copy u error = record u { error_text = error }

module _ {C F : Type 0} where
  -- On an error the page ends with another one.
  unfoldable pub or_else :
      {A : Type 0}
      → Action C A
      → (String → Action C (Reply F))
      → (A → Action C (Reply F))
      → Action C (Reply F)
  unfolding rescue
  or_else m answer k = rescue m answer k

  abbrev pub say : String → Action C (Reply F)
  say e = give (body e)

abbrev pub field : {C : Type 0} → String → Request → Action C String
field key r = form_value (value_at key r.form)
