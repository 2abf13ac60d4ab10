-- ===== src/Commands/Info.antt =====
-- commands.cpp: INFO.
use minimum_redis.Base.{Option, none, some, [], ◌∷◌, ◌++◌, Bytes, text, if◌then◌else◌}
use minimum_redis.Base.Int.{ℤ, pos}
use minimum_redis.Base.Number.{to_string_ℤ}
use minimum_redis.Commands.Reply.{bulk_reply}
use minimum_redis.Commands.State.{DaemonStatus}

-- `std::to_string` of an `int`, on a line of its own.
abbrev pub number_line : Bytes → ℤ → Bytes
number_line name n = name ++ (to_string_ℤ n ++ (b'\r' ∷ b'\n' ∷ []))

abbrev pub daemon_info : Option DaemonStatus → Bytes
daemon_info none = []
daemon_info (some daemon) =
    text "\n# Save Daemon\r\nsave_daemon_running:"
    ++ ((if daemon.is_running then text "yes\r\n" else text "no\r\n")
        ++ (number_line (text "save_daemon_interval:") (pos daemon.get_interval)
            ++ (number_line (text "save_daemon_successful_saves:") daemon.get_successful_saves
                ++ number_line (text "save_daemon_failed_saves:") daemon.get_failed_saves)))

-- All the lines but the last four are fixed.
abbrev pub server_info : Bytes
server_info =
    text "# Server\r\nredis_version:MinimalRedis-1.0\r\nredis_mode:standalone\r\nos:macOS\r\n"
    ++ (text "uptime_in_seconds:0\r\nconnected_clients:1\r\n"
        ++ (text "\n# Memory\r\nused_memory:0\r\ntotal_system_memory:0\r\n"
            ++ text "\n# Stats\r\ntotal_commands_processed:0\r\n"))

unfoldable pub handle_info : Option DaemonStatus → Bytes
handle_info daemon = bulk_reply (server_info ++ daemon_info daemon)
