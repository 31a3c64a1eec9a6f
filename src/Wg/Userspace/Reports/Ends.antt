-- ===== src/Wg/Userspace/Reports/Ends.antt =====
-- Which peers the parser reports at the end of an answer.
use innernet.Prelude.{
  string_eq, String, ◌≡◌, refl, sym, ap, ◌∙◌, subst, Option, none, some, List, [], ◌∷◌, ◌++◌, map,
  arith, ==_iff, append-nil,
}
use innernet.Wg.{PeerInfo}
use innernet.Wg.Userspace as Userspace
use innernet.Wg.Userspace.{
  Parsers, Parsed, done, invalid_data, panicked, os_error, ConfigParser, new, errno, field, finish,
  add_field, add_pair, add_line, add_lines,
}
use innernet.Wg.Userspace.Reports.{key_of, current_key, named_in, named, add_lines-listed}

-- The line that ends an answer.
abbrev pub IsLast : Parsers → String → Type 0
IsLast s line =
    (pair : String × String) × (s.split_pair line ≡ some pair)
    × (field pair.0 ≡ errno)
    × (pair.1 ≡ "0")

-- The last line finishes the peer that was current.
add_line-last :
    (s : Parsers) (line : String) (p p' : ConfigParser)
    → IsLast s line
    → add_line s p line ≡ done p'
    → p'.current_peer ≡ none
unfolding add_line add_pair add_field
add_line-last s line p p' (pair, split, key, value) h =
    let next : ConfigParser = record {
      device_info = finish p.current_peer p.device_info;
      current_peer = none;
    } in
    let step : add_field s (field pair.0) pair.1 p ≡ done p' = ground (arith, h, split) in
    let ended : add_field s errno pair.1 p ≡ done p' =
      subst (λ f. add_field s f pair.1 p ≡ done p') key step in
    let after : next ≡ p' = ground (arith, ended, (==_iff pair.1 "0").1 value) in
    ap (λ (q : ConfigParser). q.current_peer) (sym after)

add_lines-last :
    (s : Parsers) (line : String) (last : IsLast s line) (answer : List String)
    (p p' : ConfigParser)
    → add_lines s (answer ++ line ∷ []) p ≡ done p'
    → p'.current_peer ≡ none
unfolding add_lines
add_lines-last s line last [] p p' h = ended (add_line s p line) refl h
  where
    ended :
        (r : Parsed ConfigParser)
        → add_line s p line ≡ r
        → Userspace.and_then s r (add_lines s []) ≡ done p'
        → p'.current_peer ≡ none
    ended invalid_data e k = ground (arith, k)
    ended panicked e k = ground (arith, k)
    ended (os_error n) e k = ground (arith, k)
    ended (done q) e k = add_line-last s line p p' last (e ∙ k)
add_lines-last s line last (x ∷ answer) p p' h =
    first (add_line s p x) (λ q. add_lines-last s line last answer q p') h
  where
    first :
        (r : Parsed ConfigParser)
        → ((q : ConfigParser)
            → add_lines s (answer ++ line ∷ []) q ≡ done p'
            → p'.current_peer ≡ none)
        → Userspace.and_then s r (add_lines s (answer ++ line ∷ [])) ≡ done p'
        → p'.current_peer ≡ none
    first invalid_data deeper k = ground (arith, k)
    first panicked deeper k = ground (arith, k)
    first (os_error n) deeper k = ground (arith, k)
    first (done q) deeper k = deeper q k

-- The line that ends an answer names no peer.
named-last :
    (s : Parsers) (line : String)
    → IsLast s line
    → (answer : List String) → named s (answer ++ line ∷ []) ≡ named s answer
unfolding named
named-last s line (pair, split, key, value) [] = rw split (rw key refl)
named-last s line last (x ∷ answer) =
    ap (λ ks. named_in s (s.split_pair x) ++ ks) (named-last s line last answer)

-- Whatever answer the parser accepts that ends with the line `errno=0`: the device that it reports has
-- exactly the peers whose keys the lines name, in their order, and no peer is left unfinished.
pub add_lines-peers :
    (s : Parsers) (answer : List String) (line name : String) (linked_name : Option String)
    (p : ConfigParser)
    → IsLast s line
    → add_lines s (answer ++ line ∷ []) (new name linked_name) ≡ done p
    → (p.current_peer ≡ none)
      × (map (λ (peer : PeerInfo). peer.config.public_key) p.device_info.peers ≡ named s answer)
unfolding new
add_lines-peers s answer line name linked_name p last h =
    let whole = add_lines-listed s (answer ++ line ∷ []) (new name linked_name) p h in
    let finished_all = add_lines-last s line last answer (new name linked_name) p h in
    (
      finished_all,
      sym (append-nil (map key_of p.device_info.peers))
          ∙ ap (λ o. map key_of p.device_info.peers ++ current_key o) (sym finished_all)
          ∙ whole
          ∙ named-last s line last answer,
    )
