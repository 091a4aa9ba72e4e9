-- ===== src/Command/Lookup.antt =====
-- The search through the table of commands against a direct look at the profile.
use device_service_zigbee.Prelude.{
  ◌≡◌, refl, sym, ap, ◌∙◌, Bool, true, false, ◌&&◌, Option, none, some, List, [], ◌∷◌, ◌++◌, Bytes,
  arith, if◌then◌else◌, str_eq, str_eq_iff,
}
use device_service_zigbee.Prelude.Outcome.{Outcome, done, ◌>>=◌, >>=-eq-done}
use mathlib.Core.Path.{subst}
use device_service_zigbee.Command.{
  ResourceOperation, DeviceResource, DeviceCommand, Row, CmdInfo, DeviceProfile, operations,
  rows_for, info_for_res, info_for_dev_res, info_if, command_infos, has_command, resource_infos,
  populate_cmd_info, with_cmd_info, search, find_command,
}

abbrev or_else : Option CmdInfo → Option CmdInfo → Option CmdInfo
or_else none o = o
or_else (some i) o = some i

search-append :
    (is js : List CmdInfo) (name : Bytes) (g : Bool)
    → search (is ++ js) name g ≡ or_else (search is name g) (search js name g)
unfolding search
search-append [] js name g = refl
search-append (i ∷ is) js name g = ground (arith, search-append is js name g)

abbrev offers : DeviceCommand → Bool → Bool
offers cmd g = elim (operations cmd g) [ [] ↦ false | ro ∷ ros ↦ true ]

-- the first command of the name that has operations in the direction
unfoldable pub lookup_command :
    List DeviceResource → List DeviceCommand → Bytes → Bool → Outcome (Option CmdInfo)
lookup_command rs [] name g = done none
lookup_command rs (cmd ∷ cmds) name g =
    let rest = lookup_command rs cmds name g in
    if str_eq cmd.name name && offers cmd g
    then (do info ← info_for_res rs cmd g; done (some info))
    else rest

abbrev allows : DeviceResource → Bool → Bool
allows r g = if g then r.value.readable else r.value.writable

-- the first resource of the name that can be read, or written
unfoldable pub lookup_resource : List DeviceResource → Bytes → Bool → Option CmdInfo
lookup_resource [] name g = none
lookup_resource (r ∷ rs) name g =
    let rest = lookup_resource rs name g in
    if str_eq r.name name && allows r g then some (info_for_dev_res r g) else rest

-- The commands come first; a resource counts only if no command at all has its name.
unfoldable pub lookup : DeviceProfile → Bytes → Bool → Outcome (Option CmdInfo)
unfolding lookup_command lookup_resource
lookup prof name g =
    if has_command prof.device_commands name
    then lookup_command prof.device_resources prof.device_commands name g
    else done (lookup_resource prof.device_resources name g)

-- what `info_if` adds to the table
data Adds (rs : List DeviceResource) (cmd : DeviceCommand) (d : Bool) : List CmdInfo → Type 0 where
  nothing : offers cmd d ≡ false → Adds rs cmd d []
  entry :
      (rows : List Row)
      → offers cmd d ≡ true
      → info_for_res rs cmd d ≡ done (record { name = cmd.name; isget = d; rows = rows })
      → Adds rs cmd d (record { name = cmd.name; isget = d; rows = rows } ∷ [])

info_for_res-rows :
    (rs : List DeviceResource) (cmd : DeviceCommand) (d : Bool) (i : CmdInfo)
    → info_for_res rs cmd d ≡ done i
    → (rows : List Row) × (i ≡ record { name = cmd.name; isget = d; rows = rows })
unfolding info_for_res
info_for_res-rows rs cmd d i h =
    let (rows, e, e') = >>=-eq-done (rows_for rs (operations cmd d)) _ h in
    (rows, ground (arith, e'))

info_if-Adds :
    (rs : List DeviceResource) (cmd : DeviceCommand) (d : Bool) (l : List CmdInfo)
    → info_if rs cmd d ≡ done l
    → Adds rs cmd d l
info_if-Adds rs cmd d l h = go (operations cmd d) refl
  where
    go : (ros : List ResourceOperation) → operations cmd d ≡ ros → Adds rs cmd d l
    go [] e =
        let none_here : l ≡ [] = unfold info_if in ground (arith, e, h) in
        subst (Adds rs cmd d) (sym none_here) (nothing (ground (arith, e)))
    go (ro ∷ ros) e =
        let one : (info_for_res rs cmd d >>= λ info. done (info ∷ [])) ≡ done l =
          unfold info_if in ground (arith, e, h) in
        let (i, ei, el) = >>=-eq-done (info_for_res rs cmd d) (λ info. done (info ∷ [])) one in
        let (rows, same_row) = info_for_res-rows rs cmd d i ei in
        let list : l ≡ record { name = cmd.name; isget = d; rows = rows } ∷ [] =
          ground (arith, el, same_row) in
        subst (Adds rs cmd d) (sym list) (entry rows (ground (arith, e)) (ei ∙ ap done same_row))

lookup_command_step :
    {rs : List DeviceResource} {cmd : DeviceCommand} {gets sets : List CmdInfo}
    (cmds : List DeviceCommand) (infos : List CmdInfo) (name : Bytes) (g : Bool)
    → Adds rs cmd true gets
    → Adds rs cmd false sets
    → lookup_command rs cmds name g ≡ done (search infos name g)
    → lookup_command rs (cmd ∷ cmds) name g ≡ done (search (gets ++ (sets ++ infos)) name g)
unfolding lookup_command search
lookup_command_step cmds infos name true (nothing a) (nothing b) ih = ground (arith, a, b, ih)
lookup_command_step cmds infos name false (nothing a) (nothing b) ih = ground (arith, a, b, ih)
lookup_command_step cmds infos name true (entry r o e) (nothing b) ih = ground (arith, o, e, b, ih)
lookup_command_step cmds infos name false (entry r o e) (nothing b) ih = ground (arith, o, e, b, ih)
lookup_command_step cmds infos name true (nothing a) (entry r o e) ih = ground (arith, a, o, e, ih)
lookup_command_step cmds infos name false (nothing a) (entry r o e) ih = ground (arith, a, o, e, ih)
lookup_command_step cmds infos name true (entry r o e) (entry s p f) ih =
    ground (arith, o, e, p, f, ih)
lookup_command_step cmds infos name false (entry r o e) (entry s p f) ih =
    ground (arith, o, e, p, f, ih)

lookup_command-search :
    (rs : List DeviceResource) (cmds : List DeviceCommand) (infos : List CmdInfo) (name : Bytes)
    (g : Bool)
    → command_infos rs cmds ≡ done infos
    → lookup_command rs cmds name g ≡ done (search infos name g)
unfolding command_infos
lookup_command-search rs [] infos name g h =
    let none_there : infos ≡ [] = ground arith in
    rw none_there (unfold lookup_command search in refl)
lookup_command-search rs (cmd ∷ cmds) infos name g h =
    let (gets, eg, h₁) = >>=-eq-done (info_if rs cmd true) _ h in
    let (sets, es, h₂) = >>=-eq-done (info_if rs cmd false) _ h₁ in
    let (more, em, h₃) = >>=-eq-done (command_infos rs cmds) _ h₂ in
    let whole : infos ≡ gets ++ (sets ++ more) = ground (arith, h₃) in
    rw whole (
      lookup_command_step cmds more name g (info_if-Adds rs cmd true gets eg)
        (info_if-Adds rs cmd false sets es) (lookup_command-search rs cmds more name g em))

resource_search :
    (cmds : List DeviceCommand) (rs : List DeviceResource) (name : Bytes) (g : Bool)
    → search (resource_infos cmds rs) name g
      ≡ (if has_command cmds name then none else lookup_resource rs name g)
unfolding search resource_infos lookup_resource info_for_dev_res
resource_search cmds [] name g = ground arith
resource_search cmds (r ∷ rs) name true =
    ground (arith, resource_search cmds rs name true, str_eq_iff r.name name)
resource_search cmds (r ∷ rs) name false =
    ground (arith, resource_search cmds rs name false, str_eq_iff r.name name)

-- no operation of a command that the profile does not have
lookup_command_missing :
    (rs : List DeviceResource) (cmds : List DeviceCommand) (name : Bytes) (g : Bool)
    → has_command cmds name ≡ false
    → lookup_command rs cmds name g ≡ done none
unfolding lookup_command has_command
lookup_command_missing rs [] name g h = refl
lookup_command_missing rs (cmd ∷ cmds) name g h =
    ground (arith, lookup_command_missing rs cmds name g)

-- Where every operation of the profile names one of its resources, the search through the table that
-- `populateCmdInfo` makes finds what a direct look at the profile finds: the first command of the
-- name that has operations in the direction, or, if no command at all has the name, the first
-- resource of the name that can be read, or written.
pub find_command-lookup :
    (prof p : DeviceProfile) (name : Bytes) (g : Bool)
    → prof.cmdinfo ≡ []
    → populate_cmd_info prof ≡ done p
    → find_command name prof g ≡ (lookup prof name g >>= λ o. done (o, p))
unfolding find_command with_cmd_info populate_cmd_info lookup
find_command-lookup prof p name g empty h =
    let rs = prof.device_resources in
    let cmds = prof.device_commands in
    let (infos, e, e') = >>=-eq-done (command_infos rs cmds) _ h in
    let table : p.cmdinfo ≡ infos ++ resource_infos cmds rs = ground (arith, e') in
    ground (
      arith,
      empty,
      e,
      e',
      table,
      search-append infos (resource_infos cmds rs) name g,
      lookup_command-search rs cmds infos name g e,
      resource_search cmds rs name g,
      lookup_command_missing rs cmds name g,
    )
