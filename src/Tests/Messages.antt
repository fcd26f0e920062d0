-- ===== src/Tests/Messages.antt =====
-- Arguments of messages and their length words at fixed inputs.
use libfep.Base.{[], ◌∷◌}
use libfep.FepString.{zeroed}
use libfep.Message.{ControlMessage, Attribute}

abbrev fresh : ControlMessage
fresh = record { command = 5; args = zeroed ∷ zeroed ∷ [] }

-- An attribute that ends at character 300.
abbrev wide : Attribute
wide = record { type = 1; value = 2; start_index = 0; end_index = 300 }
