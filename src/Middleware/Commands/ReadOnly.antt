-- ===== src/Middleware/Commands/ReadOnly.antt =====
-- What the commands that middleware/app.py allows by default can do: they read.
use open_devops_agent.Middleware.Commands.Cluster.{
  KubectlReads, kubectl_command_allowed-KubectlReads,
}
use open_devops_agent.Prelude.{
  ◌≡◌, refl, ap, inl, inr, true, false, Option, none, some, List, [], ◌∷◌, if_cases, and-true,
  if◌then◌else◌, all,
}
use open_devops_agent.Text.{Text, codes, text_eq, text_mem}
use open_devops_agent.Text.Laws.{eq_of_text_eq}
use open_devops_agent.Middleware.Commands.Known.{
  Known, docker_ps_known, docker_logs_known, systemctl_known, journalctl_known,
}
use open_devops_agent.Middleware.Values.{is_identifier}
use open_devops_agent.Middleware.Options.{parse_options}
use open_devops_agent.Middleware.Commands.{
  kubectl_command_allowed, default_command_allowed, only_options, docker_allowed, one_identifier,
  asks_status, is_exactly, docker_command_allowed, journalctl_command_allowed,
}

-- The arguments are known options and these.
abbrev pub Leftover : List Text → Known → List Text → Type 0
Leftover arguments known positionals =
    parse_options arguments known.alone known.with_value ≡ some positionals

-- The commands that only read.
pub data ReadsOnly : List Text → Type 0 where
  docker_ps :
      (arguments : List Text)
      → Leftover arguments docker_ps_known []
      → ReadsOnly (codes "docker" ∷ codes "ps" ∷ arguments)
  docker_logs :
      (arguments : List Text) (name : Text)
      → Leftover arguments docker_logs_known (name ∷ [])
      → is_identifier name ≡ true
      → ReadsOnly (codes "docker" ∷ codes "logs" ∷ arguments)
  systemctl_status :
      (arguments services : List Text)
      → Leftover arguments systemctl_known (codes "status" ∷ services)
      → all (λ s. text_mem s (codes "nginx" ∷ codes "docker" ∷ [])) services ≡ true
      → ReadsOnly (codes "systemctl" ∷ arguments)
  nginx_test : ReadsOnly (codes "nginx" ∷ codes "-t" ∷ [])
  disk_free : ReadsOnly (codes "df" ∷ codes "-h" ∷ [])
  journal :
      (arguments : List Text)
      → Leftover arguments journalctl_known []
      → ReadsOnly (codes "journalctl" ∷ arguments)
  kubectl :
      (arguments : List Text) → KubectlReads arguments → ReadsOnly (codes "kubectl" ∷ arguments)

only_options-nil : (parsed : Option (List Text)) → only_options parsed ≡ true → parsed ≡ some []
only_options-nil none h = absurd (cc)
only_options-nil (some []) h = refl
only_options-nil (some (t ∷ ts)) h = absurd (cc)

one_identifier-name :
    (parsed : Option (List Text))
    → one_identifier parsed ≡ true
    → (name : Text) × (parsed ≡ some (name ∷ [])) × (is_identifier name ≡ true)
one_identifier-name none h = absurd (cc)
one_identifier-name (some []) h = absurd (cc)
one_identifier-name (some (t ∷ [])) h = (t, refl, h)
one_identifier-name (some (t ∷ u ∷ ts)) h = absurd (cc)

asks_status-services :
    (parsed : Option (List Text))
    → asks_status parsed ≡ true
    → (services : List Text) × (parsed ≡ some (codes "status" ∷ services))
      × (all (λ s. text_mem s (codes "nginx" ∷ codes "docker" ∷ [])) services ≡ true)
asks_status-services none h = absurd (cc)
asks_status-services (some []) h = absurd (cc)
asks_status-services (some (verb ∷ [])) h = absurd (cc)
asks_status-services (some (verb ∷ service ∷ services)) h =
    let (same, known) = and-true (text_eq verb (codes "status")) _ h in
    (service ∷ services, rw (eq_of_text_eq verb (codes "status") same) refl, known)

is_exactly-option :
    (option : Text) (arguments : List Text)
    → is_exactly option arguments ≡ true
    → arguments ≡ option ∷ []
is_exactly-option option [] h = absurd (cc)
is_exactly-option option (a ∷ []) h = ap (λ t. t ∷ []) (eq_of_text_eq a option h)
is_exactly-option option (a ∷ b ∷ more) h = absurd (cc)

journalctl-ReadsOnly :
    (arguments : List Text)
    → journalctl_command_allowed arguments ≡ true
    → ReadsOnly (codes "journalctl" ∷ arguments)
unfolding journalctl_command_allowed
journalctl-ReadsOnly arguments h =
    journal arguments (only_options-nil _ (and-true (only_options _) _ h).0)

docker-ReadsOnly :
    (verb : Text) (arguments : List Text)
    → docker_command_allowed verb arguments ≡ true
    → ReadsOnly (codes "docker" ∷ verb ∷ arguments)
docker-ReadsOnly verb arguments h = elim (if_cases (text_eq verb (codes "ps")) _ _ h) [
  | inl (ps, e) ↦
      rw (eq_of_text_eq verb (codes "ps") ps) (docker_ps arguments (only_options-nil _ e))
  | inr (_, h1) ↦ elim (if_cases (text_eq verb (codes "logs")) _ _ h1) [
    | inl (logs, one) ↦
        let (name, parsed, good) = one_identifier-name _ one in
        rw (eq_of_text_eq verb (codes "logs") logs) (docker_logs arguments name parsed good)
    | inr (_, e) ↦ absurd (cc)
  ]
]

pub default_command_allowed-ReadsOnly :
    (command : Text) (arguments : List Text)
    → default_command_allowed (command ∷ arguments) ≡ true
    → ReadsOnly (command ∷ arguments)
unfolding default_command_allowed
default_command_allowed-ReadsOnly command arguments h =
    elim (if_cases (text_eq command (codes "docker")) _ _ h) [
      | inl (named, e) ↦ rw (eq_of_text_eq command _ named) (docker_any arguments e)
      | inr (_, h1) ↦ elim (if_cases (text_eq command (codes "systemctl")) _ _ h1) [
        | inl (named, e) ↦
            let (services, parsed, known) = asks_status-services _ e in
            rw (eq_of_text_eq command _ named) (systemctl_status arguments services parsed known)
        | inr (_, h2) ↦ elim (if_cases (text_eq command (codes "nginx")) _ _ h2) [
          | inl (named, e) ↦
              rw (eq_of_text_eq command _ named, is_exactly-option _ arguments e) nginx_test
          | inr (_, h3) ↦ elim (if_cases (text_eq command (codes "df")) _ _ h3) [
            | inl (named, e) ↦
                rw (eq_of_text_eq command _ named, is_exactly-option _ arguments e) disk_free
            | inr (_, h4) ↦ others h4
          ]
        ]
      ]
    ]
  where
    docker_any :
        (arguments : List Text)
        → docker_allowed arguments ≡ true
        → ReadsOnly (codes "docker" ∷ arguments)
    docker_any [] e = absurd (cc)
    docker_any (verb ∷ more) e = docker-ReadsOnly verb more e

    others :
        (if text_eq command (codes "journalctl")
            then journalctl_command_allowed arguments
            else if text_eq command (codes "kubectl")
            then kubectl_command_allowed (command ∷ arguments)
            else false)
          ≡ true
        → ReadsOnly (command ∷ arguments)
    others e = elim (if_cases (text_eq command (codes "journalctl")) _ _ e) [
      | inl (named, e1) ↦ rw (eq_of_text_eq command _ named) (journalctl-ReadsOnly arguments e1)
      | inr (_, e2) ↦ elim (if_cases (text_eq command (codes "kubectl")) _ _ e2) [
        | inl (named, e3) ↦
            rw (eq_of_text_eq command _ named)
              (kubectl arguments (kubectl_command_allowed-KubectlReads command arguments e3))
        | inr (_, e4) ↦ absurd (cc)
      ]
    ]
