-- ===== src/Core/Transport/Parking.antt =====
-- What a dead letter keeps of its entry.
use litestar_rs.Prelude.{Text, ◌≡◌, same}
use litestar_rs.Prelude.Int.{ℤ}
use litestar_rs.Prelude.Dict.{dict_laws}
use litestar_rs.Python.{Python}
use litestar_rs.Core.Envelope.{Record, from_fields}
use litestar_rs.Core.Transport.{Transport}
use litestar_rs.Core.Transport.Commands.{Redis}
use litestar_rs.Core.Transport.Upkeep.{dead_fields}

module _ (py : Python) (redis : Redis) (self : Transport) where
  -- A dead letter decodes as its entry did, to the same job or to the same error: what was added
  -- about its end hides no field that decoding reads.
  pub from_fields-dead_fields :
      (entry : Record) (reason detail : Text) (times at : ℤ)
      → from_fields py (dead_fields py redis self entry reason detail times at)
        ≡ from_fields py entry.fields
  unfolding from_fields dead_fields same
  from_fields-dead_fields entry reason detail times at = simp dict_laws
