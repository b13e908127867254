-- ===== src/Client/Calls.antt =====
-- client/src/client.rs: the calls of a client on keys.
use percas.Version.{Version}
use percas.Base.{
  ℕ, List, [], and_then, Option, none, some, if◌then◌else◌, ◌==◌, ◌||◌, Result, ok, err,
}
use percas.Text.{String}
use percas.Bytes.{Mur3}
use percas.Client.{
  Client, Error, too_many_requests, opaque, Method, Response, Reqwest, Network, route,
  update_route_table_if_needed,
}

module _ ⦃r : Reqwest⦄ where
  -- What the calls make of a response.
  unfoldable pub get_answer : Option Response → Result (Option (List ℕ)) Error
  get_answer none = err opaque
  get_answer (some response) =
      if response.status == 404
      then ok none
      else if response.status == 200
      then elim response.bytes [ none ↦ err opaque | some body ↦ ok (some body) ]
      else if response.status == 429
      then err too_many_requests
      else err opaque

  unfoldable pub put_answer : Option Response → Result (Unit {0}) Error
  put_answer none = err opaque
  put_answer (some response) =
      if response.status == 200 || response.status == 201
      then ok tt
      else if response.status == 429
      then err too_many_requests
      else err opaque

  unfoldable pub delete_answer : Option Response → Result (Unit {0}) Error
  delete_answer none = err opaque
  delete_answer (some response) =
      if response.status == 200 || response.status == 204
      then ok tt
      else if response.status == 429
      then err too_many_requests
      else err opaque

module _ ⦃r : Reqwest⦄ ⦃m : Mur3⦄ where
  -- `self.route(key).join(key)` and the request, from the updated client on.
  abbrev pub send :
      {A : Type 0}
      → Network
      → Method
      → String
      → List ℕ
      → (Option Response → Result A Error)
      → Client × Result (Unit {0}) Error
      → Client × Result A Error
  send network method key body answer (c, err e) = (c, err e)
  send network method key body answer (c, ok u) = (
    c,
    elim (r.join (route c key) key) [
      | none ↦ err opaque
      | some url ↦ answer (network (record { method = method; url = url; body = body }))
    ],
  )

  unfoldable pub get : Network → ℕ → ℕ → Client → String → Client × Result (Option (List ℕ)) Error
  unfolding get_answer
  get network now later c key =
      send network Method.get key [] get_answer (update_route_table_if_needed network now later c)

  unfoldable pub put : Network → ℕ → ℕ → Client → String → List ℕ → Client × Result (Unit {0}) Error
  unfolding put_answer
  put network now later c key value =
      send network Method.put key value put_answer
        (update_route_table_if_needed network now later c)

  -- A body is its bytes.
  unfoldable pub put_owned :
      Network → ℕ → ℕ → Client → String → List ℕ → Client × Result (Unit {0}) Error
  unfolding put_answer
  put_owned network now later c key value =
      send network Method.put key value put_answer
        (update_route_table_if_needed network now later c)

  unfoldable pub delete : Network → ℕ → ℕ → Client → String → Client × Result (Unit {0}) Error
  unfolding delete_answer
  delete network now later c key =
      send network Method.delete key [] delete_answer
        (update_route_table_if_needed network now later c)

-- `resp.json::<Version>()`; `none` is an error.
pub record VersionJson : Type 0 where
  pub from_bytes : List ℕ → Option Version

module _ ⦃r : Reqwest⦄ ⦃v : VersionJson⦄ where
  unfoldable pub version_answer : Option Response → Result Version Error
  version_answer none = err opaque
  version_answer (some response) =
      if response.status == 200
      then elim (and_then response.bytes v.from_bytes) [
        | none ↦ err opaque
        | some version ↦ ok version
      ]
      else if response.status == 429
      then err too_many_requests
      else err opaque

  -- The version that the control server has.
  unfoldable pub version : Network → Client → Result Version Error
  unfolding version_answer
  version network c = elim (r.join c.ctrl_url "version") [
    | none ↦ err opaque
    | some url ↦ version_answer (network (record { method = Method.get; url = url; body = [] }))
  ]
