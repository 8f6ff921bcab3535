-- ===== src/Testing/Types.antt =====
-- python/src/embedded_bridge/testing/types.py, and the values of JSON that the protocol reads.
use embedded_bridge.Prelude.{List, [], Option, none}
use embedded_bridge.Text.Utf8.{Text}
use embedded_bridge.Text.Literal.{codes}

-- `other`: null, a Boolean or a number.
mutual
  pub data Json : Type 0 where
    other : Json
    str : Text → Json
    array : Items → Json
    object : Members → Json

  pub data Items : Type 0 where
    no_items : Items
    item : Json → Items → Items

  pub data Members : Type 0 where
    no_members : Members
    member : Text → Json → Members → Members

pub record TestInfo : Type 0 where
  pub id : Json
  pub name : Json
  pub group : Json

-- The anomalies, without their texts.
pub data Warning (Time : Type 0) : Type 0 where
  did_not_wake : Time → Time → Warning Time
  no_deep_sleep reconnect_failed : Warning Time
  premature_wake late_wake : Time → Time → Warning Time
  not_completed : Time → Warning Time

pub record TestOutcome (Time : Type 0) : Type 0 where
  pub test_id : Text
  pub status : Json
  pub markers : List (Text × Time)
  pub serial_log : List Text
  pub warnings : List (Warning Time)
  pub sleep_expected_s : Option Time
  pub sleep_actual_s : Option Time

pub outcome_of : {Time : Type 0} → Text → TestOutcome Time
outcome_of test_id = record {
  test_id = test_id;
  status = str (codes "ok");
  markers = [];
  serial_log = [];
  warnings = [];
  sleep_expected_s = none;
  sleep_actual_s = none;
}
