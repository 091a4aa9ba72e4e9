-- ===== src/Command/Url/Answers.antt =====
-- What `oneCommand` answers, by the direct look at the profile.
use device_service_zigbee.Prelude.{Bool, true, false, Option, none, some}
use device_service_zigbee.Command.{CmdInfo}

abbrev pub is_some : Option CmdInfo → Bool
is_some none = false
is_some (some i) = true
