-- ===== src/Prelude/Run.antt =====
-- How a C function ends that changes a state `S` and may end the process.
use mathlib.Core.Bool.{Bool, true, false}

-- It returns, with whether the value is other than 0; or `exit(EXIT_FAILURE)` is called, the
-- behaviour is undefined (a NULL pointer is read, an `int` is shifted by 32 or more), or the fuel of
-- a loop runs out.
pub data Run (S : Type 0) : Type 0 where
  ret : Bool → S → Run S
  exit_failure undefined out_of_fuel : Run S

-- What follows a call unless its value is other than 0.
abbrev pub and_then : {S : Type 0} → Run S → (S → Run S) → Run S
and_then (ret true s) k = ret true s
and_then (ret false s) k = k s
and_then exit_failure k = exit_failure
and_then undefined k = undefined
and_then out_of_fuel k = out_of_fuel
