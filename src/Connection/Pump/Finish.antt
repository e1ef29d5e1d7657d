-- ===== src/Connection/Pump/Finish.antt =====
-- web/src/h2/connection.ts: a whole chunk of `pumpBody`.
use grpc_bridge.Prelude.{ℕ, List, All}
use grpc_bridge.Stream.State.{H2Stream}
use grpc_bridge.Connection.State.{H2Connection}
use grpc_bridge.Connection.Requests.{PumpRound}
use grpc_bridge.Connection.Pump.Progress.{Ready}

-- A connection in which a round of the pump finds its stream live and room for it.
abbrev pub HasRoom : ℕ → H2Connection → Type 0
HasRoom id c = (s : H2Stream) × Ready id c s

abbrev pub AllHaveRoom : ℕ → List PumpRound → Type 0
AllHaveRoom id rounds = All (λ (r : PumpRound). HasRoom id r.before) rounds
