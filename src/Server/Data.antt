-- ===== src/Server/Data.antt =====
-- crates/server/src/server.rs: the handlers of the data server, `get`, `put` and `delete`, with what
-- they measure. `elapsed` is the time since the request came in.
use percas.Base.{ℕ, List, Option, none, some, length}
use percas.Text.{String}
use percas.Metrics.{
  Measurement, operation_labels, operation_get, operation_put, operation_delete, status_success,
  status_not_found, status_failure, count_add, bytes_add, duration_record,
}
use percas.Engine.{Foyer, get as engine_get, put as engine_put, delete as engine_delete}

-- A body: none, the text of the status, or bytes.
pub data Body : Type 0 where
  empty status_text : Body
  octets : List ℕ → Body

pub record Response : Type 0 where
  pub status : ℕ
  pub location : Option String
  pub body : Body

abbrev pub too_many_requests : Response
too_many_requests = record { status = 429; location = none; body = status_text }

abbrev pub temporary_redirect : String → Response
temporary_redirect location = record { status = 307; location = some location; body = status_text }

abbrev pub get_success : List ℕ → Response
get_success body = record { status = 200; location = none; body = octets body }

abbrev pub get_not_found : Response
get_not_found = record { status = 404; location = none; body = status_text }

abbrev pub put_success : Response
put_success = record { status = 201; location = none; body = status_text }

abbrev pub put_bad_request : Response
put_bad_request = record { status = 400; location = none; body = status_text }

abbrev pub delete_success : Response
delete_success = record { status = 204; location = none; body = empty }

-- What the handlers share: the engine, and the measurements, the last first.
pub record Context ⦃f : Foyer⦄ : Type 0 where
  pub engine : f.Cache
  pub log : List Measurement

module _ ⦃f : Foyer⦄ where
  abbrev pub got : ℕ → List Measurement → f.Cache × Option (List ℕ) → Context × Response
  got elapsed log (engine, some value) =
      let labels = operation_labels operation_get status_success in
      (
        record {
          engine = engine;
          log =
              duration_record elapsed labels
                (bytes_add (length value) labels (count_add 1 labels log));
        },
        get_success value,
      )
  got elapsed log (engine, none) =
      let labels = operation_labels operation_get status_not_found in
      (
        record { engine = engine; log = duration_record elapsed labels (count_add 1 labels log) },
        get_not_found,
      )

  unfoldable pub get : ℕ → Context → List ℕ → Context × Response
  unfolding engine_get
  get elapsed ctx key = got elapsed ctx.log (engine_get ctx.engine key)

  -- `none` is a body that fails to arrive.
  unfoldable pub put : ℕ → Context → List ℕ → Option (List ℕ) → Context × Response
  unfolding engine_put
  put elapsed ctx key (some bytes) =
      let labels = operation_labels operation_put status_success in
      (
        record {
          engine = engine_put ctx.engine key bytes;
          log =
              duration_record elapsed labels
                (bytes_add (length bytes) labels (count_add 1 labels ctx.log));
        },
        put_success,
      )
  put elapsed ctx key none =
      let labels = operation_labels operation_put status_failure in
      (
        record ctx { log = duration_record elapsed labels (count_add 1 labels ctx.log) },
        put_bad_request,
      )

  unfoldable pub delete : ℕ → Context → List ℕ → Context × Response
  unfolding engine_delete
  delete elapsed ctx key =
      let labels = operation_labels operation_delete status_success in
      (
        record {
          engine = engine_delete ctx.engine key;
          log = duration_record elapsed labels (count_add 1 labels ctx.log);
        },
        delete_success,
      )
