-- ===== src/Proxy/Swapped.antt =====
-- Two sessions on the shared connection of proxy/src/main.cpp.
use management_sensors.Prelude.{◌≡◌, refl, [], ◌∷◌, some}
use management_sensors.Prelude.Map.{lookup, insert}
use management_sensors.Http.{Request, Response}
use management_sensors.Proxy.{
  answered, System, accept, receive, forward, reply, take, answer, Reach, start, later, kept,
  closing,
}

-- For any two requests and answers of the backend to them, two sessions can come to where each has
-- sent its frontend the answer to the other's request.
pub Reach-swapped :
    (Answers : Request → Response → Type 0) (q₁ q₂ : Request) (r₁ r₂ : Response)
    → Answers (kept q₁) r₁
    → Answers (kept q₂) r₂
    → (s : System) × Reach Answers s
      × (lookup 0 s.sessions ≡ some (answered q₁ (closing r₂)))
      × (lookup 1 s.sessions ≡ some (answered q₂ (closing r₁)))
unfolding lookup insert
Reach-swapped Answers q₁ q₂ r₁ r₂ a₁ a₂ =
    let both = later (later start (accept 0 refl)) (accept 1 refl) in
    let read = later (later both (receive 0 q₁ refl)) (receive 1 q₂ refl) in
    let sent = later (later read (forward 0 q₁ refl refl)) (forward 1 q₂ refl refl) in
    let made =
      later (later sent (reply (kept q₁) (kept q₂ ∷ []) r₁ refl a₁))
        (reply (kept q₂) [] r₂ refl a₂) in
    let got =
      later (later made (take 1 q₂ r₁ [] (r₂ ∷ []) refl refl)) (take 0 q₁ r₂ [] [] refl refl) in
    let done = later (later got (answer 0 q₁ (closing r₂) refl)) (answer 1 q₂ (closing r₁) refl) in
    (_, done, refl, refl)
