-- ===== src/Ocsp/Ports.antt =====
-- What `parse_url` of server/src/oscp/ocsp_cache.cpp makes of an address, and the port at which
-- `fetchOCSPResponse` asks then.
use management_sensors.Prelude.{
  suc, ◌+◌, ◌-◌, ◌≡◌, refl, sym, ap, ◌∙◌, Text, codes, [], ◌∷◌, ◌++◌, Option, none, some, find_text,
  find_char, find_char_from, find_char-append, find_char-Without, starts_with, Without, length,
  drop, drop-drop, drop-length_append, drop-suc-length_append, append-nil, take-length_append,
  arith, text_eq,
}
use management_sensors.Ocsp.Address.{Url, parse_url, port_of, host_and_target, split_port}

abbrev pub separator : Text
separator = codes "://"

-- What stands between the scheme and the path: the host, and its port if it is written.
abbrev pub authority : Text → Option Text → Text
authority host none = host
authority host (some port) = host ++ b':' ∷ port

-- Nothing, or a text that begins with a slash.
abbrev pub IsPath : Text → Type 0
IsPath [] = Unit
IsPath (c ∷ t) = c ≡ b'/'

abbrev pub path_or_slash : Text → Text
path_or_slash [] = b'/' ∷ []
path_or_slash (c ∷ t) = c ∷ t

abbrev pub port_or_80 : Option Text → Text
port_or_80 none = codes "80"
port_or_80 (some port) = port

find_text-separator :
    (scheme rest : Text)
    → Without b':' scheme
    → find_text separator (scheme ++ (separator ++ rest)) ≡ some (length scheme)
unfolding find_text starts_with
find_text-separator [] rest h = refl
find_text-separator (c ∷ scheme) rest (p, h) = ground (arith, p, find_text-separator scheme rest h)

drop-scheme : (scheme rest : Text) → drop (length scheme + 3) (scheme ++ (separator ++ rest)) ≡ rest
drop-scheme scheme rest =
    sym (drop-drop (length scheme) 3 (scheme ++ (separator ++ rest)))
    ∙ ap (drop 3) (drop-length_append scheme (separator ++ rest))

host_and_target-parts :
    (scheme auth target : Text)
    → Without b'/' auth
    → IsPath target
    → host_and_target (scheme ++ (separator ++ (auth ++ target))) (length scheme)
      ≡ (auth, path_or_slash target)
unfolding host_and_target find_char_from
host_and_target-parts scheme auth [] h slash =
    let rest = drop-scheme scheme (auth ++ []) ∙ append-nil auth in
    rw (rest, host_and_target, find_char_from)
      (rw (find_char-Without b'/' auth h, host_and_target) (ap (λ s. (s, b'/' ∷ [])) rest))
host_and_target-parts scheme auth (c ∷ target) h slash =
    let n = length scheme + 3 in
    let url = scheme ++ (separator ++ (auth ++ c ∷ target)) in
    let rest = drop-scheme scheme (auth ++ c ∷ target) in
    let found : find_char b'/' (auth ++ c ∷ target) ≡ some (length auth) =
      rw slash (find_char-append b'/' auth target h) in
    let width : n + length auth - length scheme - 3 ≡ length auth = omega arith in
    let after : drop (n + length auth) url ≡ c ∷ target =
      sym (drop-drop n (length auth) url)
      ∙ ap (drop (length auth)) rest
      ∙ drop-length_append auth (c ∷ target) in
    rw (rest, host_and_target, find_char_from)
      (rw (found, host_and_target)
        (rw (width, rest, after, take-length_append auth (c ∷ target)) refl))

split_port-parts :
    (host : Text) (port : Option Text) (target : Text)
    → Without b':' host
    → ((split_port (authority host port, target)).host ≡ host)
      × ((split_port (authority host port, target)).target ≡ target)
      × (port_of (split_port (authority host port, target)) ≡ port_or_80 port)
unfolding split_port port_of text_eq
split_port-parts host none target h =
    rw (find_char-Without b':' host h, split_port) (refl, refl, refl)
split_port-parts host (some port) target h =
    let next : length host + 1 ≡ suc (length host) = omega arith in
    rw (find_char-append b':' host port h, split_port)
      (take-length_append host (b':' ∷ port), refl, rw next (drop-suc-length_append host b':' port))

-- An address of a scheme, a host, the port if there is one, and a path or nothing, without a colon in
-- the scheme and in the host, and without a slash before the path: parse_url gives the host, and the
-- path or a slash for it, and the port that is asked for is the written one, or 80 where none is
-- written, whatever the scheme.
pub parse_url-parts :
    (scheme host : Text) (port : Option Text) (target : Text)
    → Without b':' scheme
    → Without b':' host
    → Without b'/' (authority host port)
    → IsPath target
    → (url : Url) × (parse_url (scheme ++ (separator ++ (authority host port ++ target)))
        ≡ some url)
      × (url.host ≡ host)
      × (url.target ≡ path_or_slash target)
      × (port_of url ≡ port_or_80 port)
unfolding parse_url
parse_url-parts scheme host port target hs hh ha hp =
    let auth = authority host port in
    let found = find_text-separator scheme (auth ++ target) hs in
    let parts = host_and_target-parts scheme auth target ha hp in
    let (host_read, target_read, port_asked) =
      split_port-parts host port (path_or_slash target) hh in
    (
      split_port (auth, path_or_slash target),
      rw (found, parse_url) (ap (λ x. some (split_port x)) parts),
      host_read,
      target_read,
      port_asked,
    )
