-- ===== src/Adapters/Runs.antt =====
-- The theorems about the adapters, on servers that answer and that do not.
use async_energy_controller.Base.{none, some, [], ◌∷◌, ℕ, suc}
use async_energy_controller.Base.Int.{pos}
use async_energy_controller.Value.{finite, int, str, dict, Fields, end, field}
use async_energy_controller.Adapters.Request.{Platform, unreadable}
use async_energy_controller.Adapters.Http.{Http, HttpAdapter, answered, timed_out, Post}
use async_energy_controller.Adapters.Command.{Shell, exited, command_run}
use async_energy_controller.Adapters.Ollama.{ollama_run}
use async_energy_controller.Adapters.OpenAi.{openai_run}
use async_energy_controller.Adapters.Result.{Reports, run-Reports}
use async_energy_controller.Samples.{texts}

abbrev platform : Platform
platform = record {
  read_text = λ path. unreadable "no such file";
  floor_log2 = λ n. 6;
  dumps_sorted = λ fs. "{}";
  sha256 = λ s. s;
  split_command = λ s. some (s ∷ []);
  environ = end;
  reload_sorted = λ fs. dict fs;
}

-- The environment counts the calls.
abbrev shell : Shell ℕ
shell = record { run = λ c n. (exited (pos 0) "out" "", suc n) }

abbrev server : Http ℕ
server = record {
  post = λ url payload t headers n.
      (answered 200 "" (some (dict (field "eval_count" (int (pos 7)) end))), suc n);
  fetch = λ url t headers n. (answered 200 "" none, suc n);
}

abbrev dead : Http ℕ
dead = record {
  post = λ url payload t headers n. (timed_out, suc n);
  fetch = λ url t headers n. (timed_out, suc n);
}

abbrev adapter : HttpAdapter
adapter = record {
  base_url = "http://localhost:11434";
  timeout = some (finite (pos 600));
  preflight_timeout = finite (pos 5);
}

abbrev request : Fields
request =
    field "model" (str "llama3") (field "prompt" (str "hello") (field "command" (str "ls") end))

run-Reports_example :
    Reports (command_run texts platform shell request 0).0
    × Reports (ollama_run texts platform adapter server request 0).0
    × Reports (openai_run texts platform adapter "" server request 0).0
run-Reports_example = run-Reports texts platform shell server adapter "" request 0 0

abbrev call : Post
call = record {
  url = "http://localhost:11434/api/generate";
  payload = end;
  timeout = none;
  headers = end;
}
