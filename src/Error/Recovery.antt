-- ===== src/Error/Recovery.antt =====
-- The cause of an error, and its recovery by type.
use tork_framework.Base.{ℕ, ◌≡◌, ◌≢◌, Option, none, some, arith}
use tork_framework.Error.{Error, Cause, with_source, take_source}

abbrev pub type_of : Option Cause → Option ℕ
type_of none = none
type_of (some c) = some c.type_id

-- The recorded type is that of the attached cause, if there is one.
abbrev pub IsTagged : Error → Type 0
IsTagged e = e.source_type ≡ type_of e.source

-- A cause that was attached is taken back at its own type, and the error is then as it was before,
-- with no cause.
pub take_source-with_source :
    (c : Cause) (e : Error)
    → take_source c.type_id (with_source c e)
      ≡ (record e { source = none; source_type = none }, some c)
unfolding take_source
take_source-with_source c e = ground arith

-- At any other type nothing is taken, and the error is unchanged.
pub take_source_other :
    (t : ℕ) (c : Cause) (e : Error)
    → c.type_id ≢ t
    → take_source t (with_source c e) ≡ (with_source c e, none)
unfolding take_source
take_source_other t c e d = ground arith

-- Taking keeps the recorded type in step with the cause.
pub take_source-IsTagged : (t : ℕ) (e : Error) → IsTagged e → IsTagged (take_source t e).0
unfolding take_source
take_source-IsTagged t e h = ground arith
