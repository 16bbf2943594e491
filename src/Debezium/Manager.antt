-- ===== src/Debezium/Manager.antt =====
-- connector.go: the methods of ConnectorManager. The log lines are not modelled.
use core_wallet.Prelude.{
  String, Bool, true, false, not, ◌&&◌, Option, none, some, str_append, leb, ◌==◌, if◌then◌else◌,
}
use core_wallet.Debezium.{
  Settings, Entries, Method, get, post, put, delete, Failure, wrapped, returned, refused, Result,
  ok, err, Reply, Client, Payload, flat, named, Library,
}
use core_wallet.Debezium.Config.{build_connector_config}

-- `if err != nil { return ... }`, with what becomes of the error, and the rest.
abbrev pub after :
    {A B W : Type 0} → (Failure → Failure) → Result A × W → (A → W → Result B × W) → Result B × W
after wrong (ok a, w) next = next a w
after wrong (err e, w) next = (err (wrong e), w)

abbrev pub connector_url : Settings → String
connector_url cfg = str_append cfg.connect_url (str_append "/connectors/" cfg.connector_name)

module _ {W : Type 0} (client : Client W) where
  abbrev made :
      Option Failure → (Failure → Failure) → Method → String → Option String → W → Result Reply × W
  made (some e) wrong m url body w = (err e, w)
  made none wrong m url body w = after wrong (client.send m url body w) (λ r w. (ok r, w))

  -- A request and its answer; an error of the sending is told by `wrong`.
  unfoldable pub exchange :
      (Failure → Failure) → Method → String → Option String → W → Result Reply × W
  exchange wrong m url body w = made (client.new_request m url) wrong m url body w

  -- The end of `doJSON`.
  abbrev accepted : Method → String → Reply → W → Result (Unit {0}) × W
  accepted m url r w = (if leb 400 r.status then err (refused m url r.status r.body) else ok tt, w)

  abbrev posted : Method → String → Result String → W → Result (Unit {0}) × W
  posted m url (err e) w = (err e, w)
  posted m url (ok json) w = after (λ e. e) (exchange (λ e. e) m url (some json) w) (accepted m url)

  module _ (lib : Library) (cfg : Settings) where
    -- `doJSON`.
    unfoldable pub do_json : Method → String → Payload → W → Result (Unit {0}) × W
    unfolding exchange
    do_json m url payload w = posted m url (lib.marshal payload) w

    unfoldable pub create_connector : Entries → W → Result (Unit {0}) × W
    create_connector entries w =
        do_json post (str_append cfg.connect_url "/connectors") (named cfg.connector_name entries) w

    unfoldable pub update_connector : Entries → W → Result (Unit {0}) × W
    update_connector entries w =
        do_json put (str_append (connector_url cfg) "/config") (flat entries) w

    -- `connectorExists`.
    unfoldable pub connector_exists : W → Result Bool × W
    unfolding exchange
    connector_exists w =
        after (λ e. e) (exchange (wrapped "debezium: check exists") get (connector_url cfg) none w)
          (λ r w. (ok (r.status == 200), w))

    abbrev put_in_place : Entries → Bool → W → Result (Unit {0}) × W
    put_in_place entries true w =
        after (wrapped "debezium: update connector") (update_connector entries w)
          (λ _ w. (ok tt, w))
    put_in_place entries false w =
        after (wrapped "debezium: create connector") (create_connector entries w)
          (λ _ w. (ok tt, w))

    abbrev registered : Result Entries → W → Result (Unit {0}) × W
    registered (err e) w = (err (wrapped "debezium: build connector config" e), w)
    registered (ok entries) w =
        after (wrapped "debezium: check connector") (connector_exists w) (put_in_place entries)

    -- `Ensure`.
    unfoldable pub ensure : W → Result (Unit {0}) × W
    ensure w =
        let done = registered (build_connector_config lib cfg) w in
        if not cfg.auto_register then (ok tt, w) else done

    abbrev decoded : Result String → Result String
    decoded (ok state) = ok state
    decoded (err e) = err (wrapped "debezium: decode status" e)

    -- `Status`.
    unfoldable pub status : W → Result String × W
    unfolding exchange
    status w =
        after (λ e. e)
          (exchange (wrapped "debezium: status request") get
            (str_append (connector_url cfg) "/status") none w)
          (λ r w. (
            if r.status == 404
                then ok "NOT_FOUND"
                else if not (r.status == 200)
                then err (returned "debezium: status" r.status)
                else decoded (lib.state r.body),
            w,
          ))

  module _ (cfg : Settings) where
    -- `lifecycle`.
    unfoldable pub lifecycle : String → W → Result (Unit {0}) × W
    unfolding exchange
    lifecycle action w =
        let told = str_append "debezium: " action in
        after (λ e. e)
          (exchange (wrapped told) put (str_append (connector_url cfg) (str_append "/" action)) none
            w)
          (λ r w. (
            if not (r.status == 202) && not (r.status == 200)
                then err (returned told r.status)
                else ok tt,
            w,
          ))

    unfoldable pub pause : W → Result (Unit {0}) × W
    pause = lifecycle "pause"

    unfoldable pub resume : W → Result (Unit {0}) × W
    resume = lifecycle "resume"

    -- `Delete`, which looks at no status.
    unfoldable pub remove : W → Result (Unit {0}) × W
    unfolding exchange
    remove w =
        after (λ e. e) (exchange (wrapped "debezium: delete") delete (connector_url cfg) none w)
          (λ r w. (ok tt, w))
