-- ===== src/Lib.antt =====
-- The verification library of the TUSA chat server and its bots.
--
-- The repository has a core library (core/), the chat server (chatserver/), the bots (bot/) and tools
-- (apps/). The server's processes and the bots exchange packets that core/oscar_buffer.cpp packs, the
-- server keeps the users' states, and each bot is a client of the chat that runs a game. This
-- library models eleven of these parts; each file opens with the source that it is about.
--
-- Core/Buffer: core/oscar_buffer.h and core/oscar_buffer.cpp. Out is class out_oscar_buffer, In is
--   class oscar_buffer, a method being a function from a buffer to a buffer. Names of methods that
--   hold capitals are spelled in lower case here (put_pn is put_PN), a method whose name ends in $ ends
--   in _raw, and bytes_32LE are the bytes that put_32LE$ writes. Serial has the operators << and >> as
--   records of a writer and a reader, Flap the packets FS_outV2, F_outV2 and OCALC. What malloc leaves in
--   memory is the argument junk. The laws stand in Appends and Put (what a writer adds), Reads (what a
--   reader finds), RoundTrip, Numbers, Laws and Containers (both together) and Bounds.
-- Core/Strings: bin2hex and hex2bin of core/str_lib1.cpp, trim and repl_percent of core/str_lib.cpp,
--   replace_utf8_cp1251 of core/str_lib_extra.cpp; Strings/Decoding and Strings/Trim have the laws.
-- Core/Config: load_m_file, load_m_file_no$ and the family of set_cfg_i of core/str_lib1.cpp, over a parameter for
--   load_1_file; what is printed about a wrong line or a setting that is not there is left out. Config/Loaded and Config/Taken have the laws.
-- Chat/UserState: chatserver/user_state.h, user_state.cpp, user_status.h, user_nick.h and the operators
--   of user_nick.cpp. The sets and maps of the source are ascending lists. Channels, Part and Exported have what its
--   operations do, Packed has the operators << and >>, which stand on those of Core/Buffer.
-- Chat/Notes: note_file_head, __note_head, __note_folder and u_notes of chatserver/notes.h, with the operators
--   and the directories of chatserver/notes_containers.cpp; Notes/Packed and Notes/Dirs have the laws.
-- Chat/Levels: chatserver/levels.h and load_levels, LEVEL_NAME, __LEVELS and c_level::name of chatserver/levels.cpp, with
--   params_map::read of core/file_set.cpp and load_l_file of chatserver/chat_globals.cpp, over the same parameter; Chat/Words has the
--   keys, Levels/Named the laws.
-- Chat/Credits: inc_credit_summa and buy_thing of chatserver/user_credits.cpp; the queries of the table of users
--   are the record Bank, and what Credits/Transfers assumes of them is the record BankLaws.
-- Bot/Nicks: strupper and str_nick of bot/bot-shared/utils.cpp with their tables, by which the Mafia bot
--   finds a player.
-- Bot/Mafia: bot/bot-mafia-new. State has c_user and the globals of game.cpp, user.cpp and day.cpp as one
--   record, Users is user.cpp, Night is night.cpp, Roles, MainMaf, Finish and Game are game.cpp, Day, Votes and Vote2
--   are day.cpp, Command is command.cpp. A handler is a function from a game to a game; the time and the
--   random numbers are arguments. A pointer to a c_user is the user's id. Runs has the calls of handlers as
--   a step relation. Votes/Ballot, Vote2/Majority, Roles/Keeps, Roles/Shares, MainMaf/Present, Night/Orders, Night/Rules,
--   Finish/Verdict, Day/Patients, Users/Registry, Game/Phases, Game/Steps, Command/Handlers and Command/Return have the
--   proofs.
-- Bot/Texts: splitTOK, join, parse_strmap and strex of bot/bot-shared/utils.cpp, and atoi; Texts/Split has the laws.
-- Bot/Roulette: bot/bot-roulette. State has the globals of game.cpp and the users of roulette.h as one record; a
--   pointer to a user is an address in its heap. Wheel and Round are check_state, Bets are do_num_stawka and
--   do_odd_even_stawka, Reply is do_UTTC_REPLY, Command is process_command; Bot/Words has the strings that it
--   looks for. Amounts are doubles: each definition takes the operations on them as the record Money, of
--   which no law is assumed. Sent has what goes to the server: requests for credits, payments and notices.
--   Wheel/Payout, Wheel/Owed, Round/Phases, Round/Stakes, Bets/Asked, Bets/Numbers, Reply/Stakes and Command/Known have
--   the proofs.
-- Bot/Quiz: bot/bot-quiz-oscar. Quiz is check_state and check_answer of game.cpp with the globals of quiz.cpp as one
--   record, Quiz/Command is process_command; the queries of the table of scores are the record Ratings, with the laws RatingLaws of Quiz/Prizes, and the row
--   of the next question is an argument. Quiz/Prizes and Quiz/Hints have the proofs.
-- Bot/Antiflood: bot/bot-shared/antiflood.cpp, with its two maps and what it sends as one record;
--   Antiflood/Repeats and Antiflood/Bans have the proofs.
-- Common: tests, lists and maps on the native numbers, and maps with strings as keys. Examples of each part apply its theorems.
--
-- Machine words are natural numbers with the reduction modulo 2 ^ 8, 2 ^ 16 or 2 ^ 32 written out, and a
-- signed number is its bit pattern. Fuel: get_pn runs get_pn_loop on one more than the bytes left, since
-- a round reads one, and at the end get_8 gives 0, which ends the loop; share_roles runs on the players left,
-- since a round takes one at least; assign_role runs 1001 rounds, as the source does.
--
-- Not modelled: what is only printed, what the bots say with privmsg, action and the MODE lines,
-- but for the bets and phases of the roulette and the questions and prizes of the quiz, where each
-- text is a constructor, the phrases of players, sleeps, the database but for the rows that
-- unregister_user adds, the search for the words of commands of the Mafia bot, the file in which
-- the roulette repeats its stakes, the operators of double in buffers, and all other parts of the
-- server, the other bots and the tools.
pub mod Common
pub mod Core
pub mod Chat
pub mod Bot
