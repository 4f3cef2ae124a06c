-- ===== src/Transport/Wire.antt =====
-- What a message is at the other end of the socket: HttpRequest and HttpTcpResponse of
-- src/daemon/rest/HttpRequest.cpp.
use mathlib.Core.List.{append_assoc, append-nil}
use app_mesh.Prelude.{some, List, [], ◌∷◌, ◌++◌, map, String, true, ◌≡◌, refl, sym, ap, ◌∙◌}
use app_mesh.Transport.{
  HttpRequest, HttpTcpResponse, text, number, Cdr, IsCdr, parse_headers, serialize_headers,
  write_texts, request_texts, response_texts, serialize, deserialize, serialize_response,
  deserialize_response,
}

-- A request and a response as they are received.
abbrev pub received : HttpRequest → HttpRequest
received m = record m {
  headers = parse_headers (serialize_headers m.headers);
  forward_response2rest_server = true;
}

abbrev pub received_response : HttpTcpResponse → HttpTcpResponse
received_response r = record r { headers = parse_headers (serialize_headers r.headers) }

module _ {O I : Type 0} (cdr : Cdr O I) (law : IsCdr cdr) where
  written-write_texts :
      (xs : List String) (o : O) → law.written (write_texts cdr xs o) ≡ law.written o ++ map text xs
  written-write_texts [] o = sym (append-nil (law.written o))
  written-write_texts (s ∷ rest) o =
      written-write_texts rest (cdr.write o (text s))
      ∙ ap (λ w. w ++ map text rest) (law.write_lem o (text s))
      ∙ append_assoc (law.written o) (text s ∷ []) (map text rest)

  written_texts : (xs : List String) → law.written (write_texts cdr xs cdr.empty) ≡ map text xs
  written_texts xs = written-write_texts xs cdr.empty ∙ ap (λ w. w ++ map text xs) law.empty_lem

  pub deserialize-serialize :
      (m : HttpRequest) → deserialize cdr (cdr.sent (serialize cdr m)) ≡ some (received m)
  unfolding deserialize serialize
  deserialize-serialize m =
      let (i1, r1, u1) =
        law.read_text_lem (cdr.sent (serialize cdr m)) m.uuid _
          (law.sent_lem _ ∙ written_texts (request_texts m)) in
      let (i2, r2, u2) = law.read_text_lem i1 m.method _ u1 in
      let (i3, r3, u3) = law.read_text_lem i2 m.relative_uri _ u2 in
      let (i4, r4, u4) = law.read_text_lem i3 m.remote_address _ u3 in
      let (i5, r5, u5) = law.read_text_lem i4 m.body _ u4 in
      let (i6, r6, u6) = law.read_text_lem i5 (serialize_headers m.headers) _ u5 in
      let (i7, r7, u7) = law.read_text_lem i6 m.query [] u6 in rw (r1, r2, r3, r4, r5, r6, r7) refl

  pub deserialize_response-serialize_response :
      (r : HttpTcpResponse)
      → deserialize_response cdr (cdr.sent (serialize_response cdr r)) ≡ some (received_response r)
  unfolding deserialize_response serialize_response
  deserialize_response-serialize_response r =
      let (i1, r1, u1) = law.read_text_lem (cdr.sent (serialize_response cdr r)) r.uuid _ (
        law.sent_lem _
        ∙ law.write_lem (write_texts cdr (response_texts r) cdr.empty) (number r.status)
        ∙ ap (λ w. w ++ number r.status ∷ []) (written_texts (response_texts r))) in
      let (i2, r2, u2) = law.read_text_lem i1 r.body _ u1 in
      let (i3, r3, u3) = law.read_text_lem i2 r.body_type _ u2 in
      let (i4, r4, u4) = law.read_text_lem i3 (serialize_headers r.headers) _ u3 in
      let (i5, r5, u5) = law.read_number_lem i4 r.status [] u4 in rw (r1, r2, r3, r4, r5) refl
