-- ===== src/Protocol/Stream.antt =====
-- A response stream of internal/protocol/protocol.go: zero or more output frames, then exactly one
-- terminal frame.
use sandboxed_ai_agent_orche.Prelude.{◌≡◌, true, false, List, [], ◌∷◌, ◌++◌, All}
use sandboxed_ai_agent_orche.Protocol.{ResponseFrame, terminal}

abbrev pub IsOutput : ResponseFrame → Type 0
IsOutput f = terminal f ≡ false

-- The frames before the last one do not end the stream, and the last one does.
pub record IsResponse (frames : List ResponseFrame) : Type 0 where
  pub outputs : List ResponseFrame
  pub last : ResponseFrame
  pub split : frames ≡ outputs ++ (last ∷ [])
  pub open_before : All IsOutput outputs
  pub ends : terminal last ≡ true
