-- ===== src/Core/Reason.antt =====
-- v4/src/matchtrader/core/reason.py: the investigable reason of a failed or unconfirmed write.
use match_trader_api.Common.{
  String, append, Bool, false, ◌&&◌, Option, none, some, is_text, if◌then◌else◌,
}

pub record Reason : Type 0 where
  pub origin : String
  pub code : String
  pub summary : String
  pub evidence : String
  pub body_captured : Bool

-- An exception: the name of its type, its message with secrets masked (the regular expressions of
-- `_summary_from`), and the structured reason that it carries, if that is a dict.
pub record Failure : Type 0 where
  pub kind : String
  pub detail : String
  pub reason : Option Reason

-- The caller's test that a reason has an origin, a code and evidence.
unfoldable pub is_structured : Reason → Bool
is_structured r = is_text r.origin && is_text r.code && is_text r.evidence

outcome_unconfirmed : Failure → String
outcome_unconfirmed e =
    if is_text e.detail
    then append (append "Outcome unconfirmed after " e.kind) (append ": " e.detail)
    else append "Outcome unconfirmed after " e.kind

unfoldable pub unconfirmed_reason : Failure → String → Reason
unfolding outcome_unconfirmed
unconfirmed_reason e correlation = record {
  origin = "unconfirmed";
  code = e.kind;
  summary =
      append (outcome_unconfirmed e)
        "; the failure phase (broker, wire or local) could not be established";
  evidence =
      append "no structured broker or wire evidence was attached; reconcile using " correlation;
  body_captured = false;
}

-- `getattr(error, "reason", None)` if it is structured, else the unconfirmed reason.
chosen : Failure → String → Option Reason → Reason
chosen e correlation none = unconfirmed_reason e correlation
chosen e correlation (some r) = if is_structured r then r else unconfirmed_reason e correlation

unfoldable pub reason_of : Failure → String → Reason
unfolding chosen is_structured unconfirmed_reason
reason_of e correlation = chosen e correlation e.reason

unfoldable pub local_reason : Failure → String → Reason
local_reason e evidence = record {
  origin = "local";
  code = e.kind;
  summary = e.detail;
  evidence = evidence;
  body_captured = false;
}
