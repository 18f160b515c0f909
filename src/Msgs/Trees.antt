-- ===== src/Msgs/Trees.antt =====
-- The messages as trees: each message that `class Msgs` formats is the print of one tree.
use powerguru.Prelude.{◌≡◌, refl, List, [], ◌∷◌, ◌++◌, Text, codes}
use powerguru.Prelude.Int.{ℤ}
use powerguru.Std.Number.{print_int}
use powerguru.Msgs.State.{Msgs, XmlMeters, XmlStatus, XmlConfig, XmlCommand, XmlMsg}
use powerguru.Msgs.Create.{
  ends, status_create, helo_create, meters_request, meter_tag, meters_response_create,
  request_meters, request_status, status_tag, request_config, config_tag, request_command,
  command_tag, response_create, msg_tag, config_create,
}

-- An element with its attributes holds a text or elements.
mutual
  pub data Tree : Type 0 where
    leaf : Text → List (Text × Text) → Text → Tree
    branch : Text → List (Text × Text) → Forest → Tree

  pub data Forest : Type 0 where
    nil : Forest
    grow : Tree → Forest → Forest

unfoldable pub print_attributes : List (Text × Text) → Text → Text
print_attributes [] rest = rest
print_attributes ((name, value) ∷ attributes) rest =
    codes " "
    ++ (name ++ (codes "=\"" ++ (value ++ (codes "\"" ++ print_attributes attributes rest))))

-- The print of a tree before the text `rest`: every start tag is closed by its name.
unfoldable mutual
  unfolding print_attributes

  pub print_tree : Tree → Text → Text
  print_tree (leaf name attributes text) rest =
      codes "<"
      ++ (name
          ++ print_attributes attributes
              (codes ">" ++ (text ++ (codes "</" ++ (name ++ (codes ">" ++ rest))))))
  print_tree (branch name attributes forest) rest =
      codes "<"
      ++ (name
          ++ print_attributes attributes
              (codes ">" ++ print_forest forest (codes "</" ++ (name ++ (codes ">" ++ rest)))))

  pub print_forest : Forest → Text → Text
  print_forest nil rest = rest
  print_forest (grow tree forest) rest = print_tree tree (print_forest forest rest)

-- The frame of every message but one: an element with the version of the protocol.
abbrev pub framed : Text → Tree → Tree
framed version tree = branch (codes "powerguru") ((codes "version", version) ∷ []) (grow tree nil)

-- The texts that `class Msgs` formats for the requests, the responses, a greeting and a configuration
-- are each the print of one tree, with its tags nested, and the NUL behind it; a command is asked for as a
-- status.
pub create_trees :
    (m : Msgs) (type tag val : Text) (number : ℤ) (meters : XmlMeters) (kind : XmlMsg)
    (s : XmlStatus) (c : XmlConfig) (o : XmlCommand)
    → (helo_create m
        ≡ print_tree
            (branch (codes "powerguru") ((codes "version", m.version) ∷ []) (
              grow
                (leaf (codes "client") ((codes "ip", m.remoteip) ∷ []) m.remotehost)
                (grow (leaf (codes "server") ((codes "ip", m.thisip) ∷ []) m.thishost) nil)))
            ends)
      × (status_create m ≡ print_tree (framed m.version (leaf (codes "status") [] [])) ends)
      × (meters_request m meters
          ≡ print_tree (framed m.version (leaf (codes "meters") [] (meter_tag meters))) ends)
      × (request_meters m meters
          ≡ print_tree (framed m.version (leaf (codes "meters") [] (meter_tag meters))) ends)
      × (meters_response_create m type val
          ≡ print_tree
              (framed m.version (branch (codes "meters") [] (grow (leaf type [] val) nil)))
              ends)
      × (response_create m kind tag val
          ≡ print_tree
              (framed m.version (branch (msg_tag kind) [] (grow (leaf tag [] val) nil)))
              ends)
      × (config_create tag number
          ≡ print_tree
              (branch (codes "powerguru") [] (grow (leaf tag [] (print_int number)) nil))
              ends)
      × (request_status m s
          ≡ print_tree (framed m.version (leaf (codes "status") [] (status_tag s))) ends)
      × (request_config m c
          ≡ print_tree (framed m.version (leaf (codes "config") [] (config_tag c))) ends)
      × (request_command m o
          ≡ print_tree (framed m.version (leaf (codes "status") [] (command_tag o))) ends)
unfolding print_tree helo_create status_create meters_request request_meters meters_response_create
    response_create config_create request_status request_config request_command
create_trees m type tag val number meters kind s c o =
    (refl, refl, refl, refl, refl, refl, refl, refl, refl, refl)
