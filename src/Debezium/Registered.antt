-- ===== src/Debezium/Registered.antt =====
-- connector.go: what Ensure leaves behind in a Kafka Connect that keeps to its interface.
use core_wallet.Prelude.{
  String, ◌≡◌, refl, true, Option, none, some, str_append, Option-cases, inl, inr,
}
use core_wallet.Debezium.{
  Settings, Entries, Method, get, post, put, ok, Client, flat, named, Library,
}
use core_wallet.Debezium.Config.{build_connector_config}
use core_wallet.Debezium.Manager.{
  connector_url, exchange, do_json, create_connector, update_connector, connector_exists, ensure,
}

module _ {W : Type 0} (client : Client W) (lib : Library) (cfg : Settings) where
  -- What Kafka Connect documents, for one connector and one configuration of it: `registered` tells
  -- the configuration in force. Every request can be made and both bodies are serialised.
  pub record KeepsConnector (entries : Entries) (registered : W → Option Entries) : Type 0 where
    pub makes : (m : Method) (url : String) → client.new_request m url ≡ none
    pub new_body : String
    pub update_body : String
    pub writes_new : lib.marshal (named cfg.connector_name entries) ≡ ok new_body
    pub writes_update : lib.marshal (flat entries) ≡ ok update_body
    pub misses :
        (w : W)
        → registered w ≡ none
        → (b : String) × (client.send get (connector_url cfg) none w
            ≡ (ok (record { status = 404; body = b }), w))
    pub finds :
        (w : W) (old : Entries)
        → registered w ≡ some old
        → (b : String) × (client.send get (connector_url cfg) none w
            ≡ (ok (record { status = 200; body = b }), w))
    pub creates :
        (w : W)
        → registered w ≡ none
        → (b : String) × (w' : W) × (client.send post
              (str_append cfg.connect_url "/connectors")
              (some new_body)
              w
            ≡ (ok (record { status = 201; body = b }), w'))
          × (registered w' ≡ some entries)
    pub updates :
        (w : W) (old : Entries)
        → registered w ≡ some old
        → (b : String) × (w' : W) × (client.send put
              (str_append (connector_url cfg) "/config")
              (some update_body)
              w
            ≡ (ok (record { status = 200; body = b }), w'))
          × (registered w' ≡ some entries)

  -- With auto-registration and a configuration that is built, `Ensure` succeeds on a Kafka Connect
  -- that keeps to its interface, and the connector is registered with that configuration, whether it
  -- was absent or there with any other.
  pub ensure_registers :
      (entries : Entries) (registered : W → Option Entries)
      → KeepsConnector entries registered
      → cfg.auto_register ≡ true
      → build_connector_config lib cfg ≡ ok entries
      → (w : W)
      → (w' : W) × (ensure client lib cfg w ≡ (ok tt, w')) × (registered w' ≡ some entries)
  unfolding ensure connector_exists create_connector update_connector do_json exchange
  ensure_registers entries registered keeps auto built w = elim (Option-cases (registered w)) [
    | inl absent ↦
        let (b, missed) = keeps.misses w absent in
        let (b', w', created, in_force) = keeps.creates w absent in
        (
          w',
          rw
              (
                built,
                keeps.makes get (connector_url cfg),
                missed,
                keeps.writes_new,
                keeps.makes post (str_append cfg.connect_url "/connectors"),
                created,
                auto,
              )
              refl,
          in_force,
        )
    | inr (old, there) ↦
        let (b, found) = keeps.finds w old there in
        let (b', w', updated, in_force) = keeps.updates w old there in
        (
          w',
          rw
              (
                built,
                keeps.makes get (connector_url cfg),
                found,
                keeps.writes_update,
                keeps.makes put (str_append (connector_url cfg) "/config"),
                updated,
                auto,
              )
              refl,
          in_force,
        )
  ]
