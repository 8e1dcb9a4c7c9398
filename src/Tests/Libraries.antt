-- ===== src/Tests/Libraries.antt =====
-- Concrete libraries for the agent of crates/ai, and a model that logs lunch and corrects it.
use andy.Base.{
  ◌+◌, ◌*◌, ◌/◌, ◌%◌, ◌-◌, false, ◌&&◌, none, some, [], ◌∷◌, all, length, ℤ, pos, pos_part, ltb,
  leb, is_ascii_digit, digits_from, negsuc, div_euclid, rem_euclid, ◌+ℤ◌, codes, if◌then◌else◌,
  decimal,
}
use andy.Shared.Amounts.{AmountText}
use andy.Shared.Time.{Calendar}
use andy.Ai.Checked.{fine}
use andy.Ai.Args.{Decoder, default_month, default_search, default_transfers}
use andy.Ai.Context.{Libraries, AgentSnapshot, FinanceToolContext}
use andy.Ai.Tools.{ToolCall}
use andy.Ai.Agent.{ModelAnswer, ChatModel, RunAgentInput}

-- Amounts of digits only.
abbrev pub plain_amounts : AmountText
plain_amounts = record {
  is_range = λ s. false;
  is_grouped = λ s. false;
  is_decimal = λ s. all is_ascii_digit s;
  centavos = λ s n. some (pos (digits_from 0 s * n));
}

-- A calendar in which every month has 31 days: the first day of a year, and the rest of it.
abbrev pub new_year : ℤ → ℤ
new_year (pos y) = pos (y * 372)
new_year (negsuc y) = negsuc (y * 372 + 371)

abbrev pub long_months : Calendar
long_months = record {
  from_ymd_opt = λ y m d.
      if (leb 1 m && leb m 12) && (leb 1 d && leb d 31)
      then some (new_year y +ℤ pos ((m - 1) * 31 + (d - 1)))
      else none;
  year = λ d. div_euclid d 372;
  month = λ d. rem_euclid d 372 / 31 + 1;
  day = λ d. rem_euclid d 372 % 31 + 1;
  days_from_monday = λ d. rem_euclid (d +ℤ pos 3) 7;
  date_text = λ d. decimal (pos_part d);
}

abbrev pub decoder : Decoder
decoder = record {
  log_expense = λ raw.
      fine (record {
        amount = raw;
        category = codes "food";
        note = none;
        date = none;
        account = none;
      });
  log_income = λ raw. fine (record { amount = raw; note = none; date = none; account = none });
  transfer = λ raw. fine (record {
    amount = raw;
    from_account = some (codes "BPI");
    to_account = none;
    note = none;
    date = none;
  });
  edit_last = λ raw. fine (record { amount = some raw; category = none; note = none });
  nothing = λ raw. fine tt;
  budget = λ raw. fine (record { category = codes "food"; monthly_limit = some raw });
  remember = λ raw. fine (record { fact = raw; kind = none });
  forget = λ raw. fine (record { query = raw });
  create_goal = λ raw. fine (record { name = codes "laptop"; target = raw; target_date = none });
  contribute_goal = λ raw. fine (record { goal_name = codes "laptop"; amount = raw; date = none });
  edit_goal = λ raw. fine (record {
    goal_name = codes "laptop";
    new_name = none;
    target = some raw;
    target_date = none;
  });
  delete_goal = λ raw. fine (record { goal_name = raw });
  add_recurring = λ raw. fine (record {
    label = codes "rent";
    amount = raw;
    category = codes "bills";
    kind = none;
    cadence = codes "monthly";
    day_of_month = some (pos 5);
    day_of_week = none;
  });
  edit_recurring = λ raw. fine (record {
    label = raw;
    amount = none;
    category = none;
    cadence = none;
    day_of_month = some (pos 5);
    day_of_week = none;
  });
  remove_recurring = λ raw. fine (record { label = raw });
  month = λ raw. fine default_month;
  category_spend = λ raw. fine (record { category = raw; month = none });
  search = λ raw. fine default_search;
  transfers_query = λ raw. fine default_transfers;
}

abbrev pub libraries : Libraries
libraries = record {
  amount_text = plain_amounts;
  calendar = long_months;
  decoder = decoder;
  to_string = λ json. codes "{}";
}

abbrev pub no_snapshot : AgentSnapshot
no_snapshot = record {
  last_transaction = none;
  goals = [];
  recurring = [];
  memories = [];
  recent_turns = [];
}

abbrev pub context : FinanceToolContext
context = record { user_id = 1; today = pos 753300; snapshot = no_snapshot; reader = none }

abbrev pub lunch_call : ToolCall
lunch_call = record { id = codes "a"; name = codes "logExpense"; arguments = codes "120" }

abbrev pub fix_call : ToolCall
fix_call = record { id = codes "b"; name = codes "editLast"; arguments = codes "150" }

-- The model calls two tools, and replies once it has their answers.
abbrev pub helpful : ChatModel
helpful messages offered =
    if ltb (length messages) 3
    then ModelAnswer.turn (record { content = none; tool_calls = lunch_call ∷ fix_call ∷ [] })
    else ModelAnswer.turn (record { content = some (codes "logged"); tool_calls = [] })

abbrev pub input : RunAgentInput
input = record {
  text = codes "lunch 120, no, 150";
  user_id = 1;
  today = pos 753300;
  model = some helpful;
  reader = none;
  snapshot = no_snapshot;
  instructions = codes "be brief";
}
