-- ===== src/Policy.antt =====
-- sf_pcre.h and sf_conf.h: the policies of a spider. `R` is a compiled pattern of pcre. A pointer that
-- the configuration may leave NULL is an option; a list by `next` pointers is a list.
use spiderframe.Base.{Bool, Option, List, Text}
use spiderframe.Base.Int.{ℤ}
use spiderframe.Proc.{Range}

-- `sf_newspider_t`
pub record Newspider : Type 0 where
  pub url_exp : Option Text
  pub conf_fn : Option Text
  pub fin_fn : Option Text

-- `sf_pcre_trigger_t`
pub record Trigger : Type 0 where
  pub program : Option Text
  pub args : Option Text
  pub store_as : Option Text

-- `sf_pcre_capture_t`
pub record Capture : Type 0 where
  pub capstr : Option Text
  pub out_pattern : Option Text
  pub json_out : Option Text
  pub store_as : Option Text
  pub content_as : Option Text

-- `sf_pcre_t`
pub record Pcre (R : Type 0) : Type 0 where
  pub urlmatch : Bool
  pub hdrmatch : Bool
  pub movetoend : Bool
  pub repeat : ℤ
  pub re : Option R
  pub uniq : Option Text
  pub json_new : Option Text
  pub sfcap : List Capture
  pub ns : List Newspider
  pub trigger : List Trigger

-- `sf_conf_policy_t`
pub record Policy (R : Type 0) : Type 0 where
  pub pcre_root : List (Pcre R)
  pub policy_range : List (Range R)
