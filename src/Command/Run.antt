-- ===== src/Command/Run.antt =====
-- device-sdk-c/src/c/device.c: one command on one device. The driver's handlers and the JSON parser
-- are parameters; what the code does to the world is a list of effects, in order. Logging and the
-- freeing of buffers are left out.
pub mod Accepted
pub mod Put
pub mod Get
mod Tests
use device_service_zigbee.Prelude.{
  ℕ, Bool, true, false, not, Option, none, some, List, [], ◌∷◌, ◌++◌, Bytes, if◌then◌else◌, ltb,
  ◌==◌, length,
}
use device_service_zigbee.Prelude.Outcome.{Outcome, done, fault, ◌>>=◌}
use device_service_zigbee.Value.{FloatText, Value, populate_value}
use device_service_zigbee.Value.Equal.{CommandResult}
use device_service_zigbee.Transform.{LongDouble, incoming}
use device_service_zigbee.Command.{Row, CmdInfo, DeviceProfile}
use device_service_zigbee.Command.Event.{Event, process_event}

-- the MHD_HTTP_ codes
pub data HttpStatus : Type 0 where
  ok bad_request not_found method_not_allowed locked internal_server_error : HttpStatus

pub data AdminState : Type 0 where
  locked unlocked : AdminState

pub data OperatingState : Type 0 where
  enabled disabled : OperatingState

-- `edgex_device`, as far as commands read it
pub record Device : Type 0 where
  pub id : Bytes
  pub name : Bytes
  pub admin_state : AdminState
  pub operating_state : OperatingState
  pub profile : DeviceProfile

-- calls of the driver, `edgex_data_client_add_event`, and `edgex_metadata_client_set_device_opstate`
pub data Effect : Type 0 where
  get_called : Bytes → Effect
  put_called : Bytes → List CommandResult → Effect
  event_added : Event → Effect
  device_disabled : Bytes → Effect

-- The driver, the configuration, the clock, and the libraries. `parse` gives the object of a text
-- as its `json_object_get_string`.
pub record Service : Type 0 where
  pub float_text : FloatText
  pub long_double : LongDouble
  pub now : ℕ
  pub data_transform : Bool
  pub max_cmd_ops : ℕ
  pub get_handler : Bytes → List Row → Option (List CommandResult)
  pub put_handler : Bytes → List Row → List CommandResult → Bool
  pub parse : Bytes → Option (Bytes → Option Bytes)

-- what the loop of `edgex_device_runput` ends in: a code, or the settings
pub data Settings : Type 0 where
  refused : HttpStatus → Settings
  accepted : List CommandResult → Settings

-- a result that one row yields, or `none` for a bad request
abbrev pub fresh : Value → CommandResult
fresh v = record { origin = 0; value = v }

pub data RowResult : Type 0 where
  rejected : HttpStatus → RowResult
  setting : CommandResult → RowResult

unfoldable pub all_readable : List Row → Bool
all_readable [] = true
all_readable (row ∷ rows) = if row.pval.readable then all_readable rows else false

unfoldable pub in_service : AdminState → OperatingState → Bool
in_service unlocked enabled = true
in_service _ _ = false

module _ (svc : Service) where
  -- `edgex_transform_incoming`, if the service transforms
  pub transform_setting : Row → CommandResult → Outcome RowResult
  transform_setting row r =
      if svc.data_transform
      then (do
        (good, r') ← incoming svc.long_double r row.pval row.map
        done (if good then setting r' else rejected bad_request))
      else done (setting r)

  pub parse_setting : Row → Bytes → Outcome RowResult
  parse_setting row s = do
    v ← populate_value svc.float_text row.pval.type s
    elim v [ none ↦ done (rejected bad_request) | some v' ↦ transform_setting row (fresh v') ]

  -- a round of the loop
  pub row_setting : (Bytes → Option Bytes) → Row → Outcome RowResult
  row_setting object row =
      if row.pval.writable
      then elim (object row.req.resname) [
        | none ↦ done (rejected bad_request)
        | some s ↦ parse_setting row s
      ]
      else done (rejected method_not_allowed)

  pub put_values : (Bytes → Option Bytes) → List Row → Outcome Settings
  put_values object [] = done (accepted [])
  put_values object (row ∷ rows) = do
    first ← row_setting object row
    elim first [
      | rejected code ↦ done (refused code)
      | setting r ↦ do
        rest ← put_values object rows
        elim rest [ refused code ↦ done (refused code) | accepted rs ↦ done (accepted (r ∷ rs)) ]
    ]

  -- the call of the driver
  pub finish_put : Device → List Row → Settings → HttpStatus × List Effect
  finish_put dev rows (refused code) = (code, [])
  finish_put dev rows (accepted rs) = (
    if svc.put_handler dev.name rows rs then ok else internal_server_error,
    put_called dev.name rs ∷ [],
  )

  -- `edgex_device_runput`
  pub run_put : Device → CmdInfo → Bytes → Outcome (HttpStatus × List Effect)
  run_put dev info body = elim (svc.parse body) [
    | none ↦ done (bad_request, [])
    | some object ↦ do s ← put_values object info.rows; done (finish_put dev info.rows s)
  ]

  unfoldable pub finish_get : Device → Option Event → HttpStatus × List Effect
  finish_get dev (some ev) = (ok, get_called dev.name ∷ event_added ev ∷ [])
  finish_get dev none = (internal_server_error, get_called dev.name ∷ device_disabled dev.id ∷ [])

  -- `edgex_device_runget`, with the event that it replies
  unfoldable pub run_get : Device → CmdInfo → Outcome ((HttpStatus × List Effect) × Option Event)
  run_get dev info =
      if all_readable info.rows
      then elim (svc.get_handler dev.name info.rows) [
        | none ↦ done ((internal_server_error, get_called dev.name ∷ []), none)
        | some results ↦ do
          ev ←
              process_event svc.float_text svc.long_double svc.now dev.name info.rows results
                svc.data_transform
          done (finish_get dev ev, ev)
      ]
      else done ((method_not_allowed, []), none)

  unfoldable pub run_allowed :
      Device → CmdInfo → Bytes → Outcome ((HttpStatus × List Effect) × Option Event)
  run_allowed dev info body =
      if ltb svc.max_cmd_ops (length info.rows)
      then done ((internal_server_error, []), none)
      else if info.isget
      then run_get dev info
      else if length body == 0
      then done ((bad_request, []), none)
      else (do r ← run_put dev info body; done (r, none))

  -- `runOne`; the size of the body is its length
  unfoldable pub run_one :
      Device → CmdInfo → Bytes → Outcome ((HttpStatus × List Effect) × Option Event)
  unfolding in_service
  run_one dev info body =
      if in_service dev.admin_state dev.operating_state
      then run_allowed dev info body
      else done ((locked, []), none)
