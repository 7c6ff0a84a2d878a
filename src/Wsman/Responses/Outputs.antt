-- ===== src/Wsman/Responses/Outputs.antt =====
-- wsman/invoke.go: the return value and the outputs of a method.
use mathlib.Core.Path.{subst}
use go_wsman.Common.{
  true, codes, ◌++◌, ◌≢◌, behind_first, expect, map_err, ◌≡◌, refl, sym, ap, ◌∙◌, false, none, some,
  Option, List, [], ◌∷◌, Bytes, str_eq, str_eq_iff, Result, ok, err, arith, if◌then◌else◌,
  Bool-cases, inl, inr,
}
use go_wsman.Common.Results.{both_ok}
use go_wsman.Common.Props.{Props, get, last_value}
use go_wsman.Common.Xml.{Stream, Token}
use go_wsman.Wsman.Instances.{extract_properties, ParseError}
use go_wsman.Wsman.Responses.{
  Fault, ResponseError, remove, return_value_name, taken, take_return_value, Reply, InvokeResponse,
  found, is_fault, parse_fault, thrown, parse_delete_response, body_of, bad, parse_invoke_response,
}

get-remove : (k j : Bytes) (m : Props) → get j (remove k m) ≡ (if str_eq k j then [] else get j m)
unfolding get remove
get-remove k j [] = ground arith
get-remove k j ((i, vs) ∷ m) =
    ground (arith, str_eq_iff k j, str_eq_iff i k, str_eq_iff i j, get-remove k j m)

-- The return value is the last ReturnValue of the map; no output has that name, and every other name
-- has the values of the map.
pub record Outputs (props : Props) (r : InvokeResponse) : Type 0 where
  pub returned : r.return_value ≡ last_value (get return_value_name props)
  pub gone : get return_value_name r.properties ≡ []
  pub others :
      (name : Bytes)
      → str_eq return_value_name name ≡ false
      → get name r.properties ≡ get name props

return_value_taken :
    (props : Props) (tokens : List Token) (vs : List Bytes)
    → get return_value_name props ≡ vs
    → Outputs props (taken vs props tokens)
unfolding last_value str_eq
return_value_taken props tokens [] e = record {
  returned = sym (ap last_value e);
  gone = e;
  others = λ name differs. refl;
}
return_value_taken props tokens (v ∷ vs) e = record {
  returned = sym (ap last_value e);
  gone = get-remove return_value_name return_value_name props;
  others = λ name differs. get-remove return_value_name name props ∙ (rw differs refl);
}

abbrev pub fault_mark : Bytes
fault_mark = codes ":Fault"

either_found :
    (here rest : Option Bytes)
    → found rest ≡ true
    → found (elim here [ some r ↦ some r | none ↦ rest ]) ≡ true
either_found none rest h = h
either_found (some r) rest h = refl

mark_found : (front back : Bytes) → is_fault (front ++ (fault_mark ++ back)) ≡ true
unfolding is_fault behind_first expect
mark_found [] back = refl
mark_found (c ∷ front) back =
    either_found (expect fault_mark (c ∷ (front ++ (fault_mark ++ back))))
      (behind_first fault_mark (front ++ (fault_mark ++ back))) (mark_found front back)

-- The mark of a fault stands nowhere in the text.
abbrev pub Unmarked : Bytes → Type 0
Unmarked text = (front back : Bytes) → text ≢ front ++ (fault_mark ++ back)

-- The text of the answer has no mark of a fault, and the outputs are those of the map that its body holds.
pub record Answered (reply : Reply) (r : InvokeResponse) : Type 0 where
  pub unmarked : Unmarked reply.text
  pub body : Stream
  pub body_is : reply.body ≡ some body
  pub props : Props
  pub props_are : extract_properties body [] ≡ ok props
  pub outputs : Outputs props r

thrown_not_ok : (f : Result ResponseError Fault) {u : Unit {0}} → thrown f ≡ ok u → ⊥
thrown_not_ok (ok f) e = cc
thrown_not_ok (err x) e = cc

fault_free :
    (reply : Reply) {u : Unit {0}}
    → parse_delete_response reply ≡ ok u
    → is_fault reply.text ≡ false
unfolding parse_delete_response
fault_free reply e = elim (Bool-cases (is_fault reply.text)) [
  | inr free ↦ free
  | inl marked ↦ absurd (thrown_not_ok (parse_fault reply) (rw marked at e))
]

body_there : (b : Option Stream) {s : Stream} → body_of b ≡ ok s → b ≡ some s
body_there none e = cc
body_there (some t) e = ap some (cc)

unwrapped : (x : Result ParseError Props) {props : Props} → map_err bad x ≡ ok props → x ≡ ok props
unwrapped (ok y) e = ap ok (cc)
unwrapped (err y) e = cc

-- When `ParseInvokeResponse` succeeds, `:Fault` stands nowhere in the text of the answer, the return value is the last
-- ReturnValue of the properties in its body, that name is gone from the outputs, and all other
-- outputs are those properties.
pub parse_invoke_response-Answered :
    (reply : Reply) (r : InvokeResponse) → parse_invoke_response reply ≡ ok r → Answered reply r
unfolding parse_invoke_response take_return_value
parse_invoke_response-Answered reply r e =
    let (u, free, rest) = both_ok (parse_delete_response reply) _ e in
    let (s, there, rest') = both_ok (body_of reply.body) _ rest in
    let (props, read, made) =
      both_ok (map_err bad (extract_properties s []))
        (λ props. ok (take_return_value props s.tokens)) rest' in
    record {
      unmarked = λ front back same.
          (let free' = fault_free reply free in
            let marked = mark_found front back in
            let both : true ≡ false = sym marked ∙ ap is_fault (sym same) ∙ free' in cc);
      body = s;
      body_is = body_there reply.body there;
      props = props;
      props_are = unwrapped (extract_properties s []) read;
      outputs =
          subst (Outputs props) (cc)
            (return_value_taken props s.tokens (get return_value_name props) refl);
    }
